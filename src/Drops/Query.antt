-- ===== src/Drops/Query.antt =====
-- internal/drops/manager.go: Revoke, Status and ResumeOffset. The clock is read once.
use dero_ghost_drop.Base.{ℕ, Bool, Option, none, some, [], Bytes, codes, lookup, if◌then◌else◌}
use dero_ghost_drop.Storage.Types as Storage
use dero_ghost_drop.Storage.Store.{Store}
use dero_ghost_drop.Manifest.Types.{Manifest}
use dero_ghost_drop.Manifest.Validate.{is_after}
use dero_ghost_drop.Database as Database
use dero_ghost_drop.Drops.Types.{
  Status, status_name, expired, revoked, Error, Result, ok, err, not_found, storage,
}
use dero_ghost_drop.Drops.Manager.{Manager, Faults, set_status, write, get_manifest}

module _ (S : Store) where
  unfoldable pub revoke_deleted :
      Faults S
      → Bytes
      → ℕ
      → Storage.Result (Unit {0}) × S.State
      → Manager S
      → Result (Unit {0}) × Manager S
  revoke_deleted f id now (Storage.err e, s) m = (err (storage e), record m { store = s })
  revoke_deleted f id now (Storage.ok u, s) m = (
    ok tt,
    write S (Database.add_event (f.db 2) id (codes "revoked") [] now) (
        write S (Database.update_status (f.db 1) id (status_name revoked))
          (set_status S (f.db 0) id revoked (record m { store = s }))),
  )

  -- Revoke
  unfoldable pub revoke : Bytes → ℕ → Faults S → Manager S → Result (Unit {0}) × Manager S
  revoke id now f m = revoke_deleted f id now (S.delete f.store id m.store) m

  -- A status, or the name of one that the database holds; what it says may be no status.
  pub data Reported : Type 0 where
    status : Status → Reported
    named : Bytes → Reported
    unknown : Error → Reported

  unfoldable pub row_status : Database.Result Database.Drop → Option Bytes
  row_status (Database.err e) = none
  row_status (Database.ok d) = some d.status

  -- GetDrop under m.db != nil && !m.ghost
  unfoldable pub db_status : Bool → Bytes → Manager S → Option Bytes
  db_status fails id m =
      if m.ghost
      then none
      else elim m.db [ none ↦ none | some d ↦ row_status (Database.get_drop fails id d) ]

  unfoldable pub status_unknown :
      Storage.Result (Unit {0}) × S.State → Manager S → Reported × Manager S
  status_unknown (Storage.err e, s) m = (unknown (storage e), record m { store = s })
  status_unknown (Storage.ok u, s) m = (unknown not_found, record m { store = s })

  unfoldable pub status_row : Option Bytes → ℕ → Faults S → Manager S → Reported × Manager S
  status_row (some name) now f m = (named name, m)
  status_row none now f m = status_unknown (S.health f.store now m.store) m

  unfoldable pub status_cached :
      Option Status → Bytes → ℕ → Faults S → Manager S → Reported × Manager S
  status_cached (some st) id now f m = (status st, m)
  status_cached none id now f m = status_row (db_status (f.db 1) id m) now f m

  unfoldable pub status_stored : Bytes → ℕ → Faults S → Manager S → Reported × Manager S
  status_stored id now f m = status_cached (lookup id m.statuses) id now f m

  unfoldable pub status_known :
      Bytes → ℕ → Faults S → Result Manifest × Manager S → Reported × Manager S
  status_known id now f (err e, m) = status_stored id now f m
  status_known id now f (ok man, m) =
      if is_after (some now) man.expires_at
      then (status expired, set_status S (f.db 0) id expired m)
      else status_stored id now f m

  -- Status
  unfoldable pub status_of : Bytes → ℕ → Faults S → Manager S → Reported × Manager S
  status_of id now f m = status_known id now f (get_manifest S id m)

  unfoldable pub offset_of : Storage.Result (ℕ × Option ℕ) → Result ℕ
  offset_of (Storage.err e) = err (storage e)
  offset_of (Storage.ok (size, expiry)) = ok size

  -- ResumeOffset
  unfoldable pub resume_offset : Bytes → ℕ → Faults S → Manager S → Result ℕ × Manager S
  resume_offset id now f m =
      let answer = S.stat f.store id now m.store in
      (offset_of answer.0, record m { store = answer.1 })
