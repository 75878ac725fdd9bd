-- ===== src/Drops/Ghost/Querying.antt =====
-- Ghost mode in Revoke and Status of internal/drops/manager.go.
use dero_ghost_drop.Base.{if_state_elim, ℕ, Option, none, some, arith, Bytes, lookup}
use dero_ghost_drop.Storage.Types as Storage
use dero_ghost_drop.Storage.Types.{is_past, Blob}
use dero_ghost_drop.Storage.Store.{Store}
use dero_ghost_drop.Manifest.Types.{Manifest}
use dero_ghost_drop.Manifest.Validate.{is_after}
use dero_ghost_drop.Database as Database
use dero_ghost_drop.Drops.Types.{expired, Status, Result, ok, err}
use dero_ghost_drop.Drops.Manager.{Manager, Faults}
use dero_ghost_drop.Drops.Query.{
  db_status, status_row, status_cached, revoke_deleted, status_known, status_stored, status_unknown,
}
use dero_ghost_drop.Drops.Ghost.Writes.{Ghostly, write-Ghostly, set_status-Ghostly}

module _ (S : Store) where
  pub deleted-Ghostly :
      (d : Option Database.Db) (f : Faults S) (id : Bytes) (now : ℕ)
      (r : Storage.Result (Unit {0}) × S.State) (m : Manager S)
      → Ghostly S d m
      → Ghostly S d (revoke_deleted S f id now r m).1
  unfolding revoke_deleted
  deleted-Ghostly d f id now (Storage.err e, s) m h = h
  deleted-Ghostly d f id now (Storage.ok u, s) m h =
      grind (arith, write-Ghostly S d, set_status-Ghostly S d)

  unknown-Ghostly :
      (d : Option Database.Db) (r : Storage.Result (Unit {0}) × S.State) (m : Manager S)
      → Ghostly S d m
      → Ghostly S d (status_unknown S r m).1
  unfolding status_unknown
  unknown-Ghostly d (Storage.err e, s) m h = h
  unknown-Ghostly d (Storage.ok u, s) m h = h

  row-Ghostly :
      (d : Option Database.Db) (o : Option Bytes) (now : ℕ) (f : Faults S) (m : Manager S)
      → Ghostly S d m
      → Ghostly S d (status_row S o now f m).1
  unfolding status_row
  row-Ghostly d (some name) now f m h = h
  row-Ghostly d none now f m h = unknown-Ghostly d (S.health f.store now m.store) m h

  cached-Ghostly :
      (d : Option Database.Db) (o : Option Status) (id : Bytes) (now : ℕ) (f : Faults S)
      (m : Manager S)
      → Ghostly S d m
      → Ghostly S d (status_cached S o id now f m).1
  unfolding status_cached
  cached-Ghostly d (some st) id now f m h = h
  cached-Ghostly d none id now f m h = row-Ghostly d (db_status S (f.db 1) id m) now f m h

  stored-Ghostly :
      (d : Option Database.Db) (id : Bytes) (now : ℕ) (f : Faults S) (m : Manager S)
      → Ghostly S d m
      → Ghostly S d (status_stored S id now f m).1
  unfolding status_stored
  stored-Ghostly d id now f m h = cached-Ghostly d (lookup id m.statuses) id now f m h

  pub known_status-Ghostly :
      (d : Option Database.Db) (id : Bytes) (now : ℕ) (f : Faults S)
      (r : Result Manifest × Manager S)
      → Ghostly S d r.1
      → Ghostly S d (status_known S id now f r).1
  unfolding status_known
  known_status-Ghostly d id now f (err e, m) h = stored-Ghostly d id now f m h
  known_status-Ghostly d id now f (ok man, m) h =
      if_state_elim (Ghostly S d) _ _ (is_after (some now) man.expires_at)
        (set_status-Ghostly S d (f.db 0) id expired m h) (stored-Ghostly d id now f m h)
