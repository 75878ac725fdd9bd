-- ===== src/Drops/Ghost/Retrieving.antt =====
-- Ghost mode in Retrieve of internal/drops/manager.go.
use dero_ghost_drop.Base.{◌||◌, if_elim, ℕ, Bool, true, false, Option, some, arith, Bytes}
use dero_ghost_drop.Storage.Types as Storage
use dero_ghost_drop.Storage.Types.{is_past, Blob}
use dero_ghost_drop.Storage.Store.{Store}
use dero_ghost_drop.Crypto.Gd01.{open_file}
use dero_ghost_drop.Manifest.Types.{Manifest}
use dero_ghost_drop.Manifest.Validate.{is_after}
use dero_ghost_drop.Database as Database
use dero_ghost_drop.Drops.Types.{
  expired, failed, delivered, retrieved, Result, ok, err, Library, RetrieveOpts,
}
use dero_ghost_drop.Drops.Locks.{resolve_key}
use dero_ghost_drop.Drops.Manager.{Manager, Faults, get_manifest}
use dero_ghost_drop.Drops.Retrieve.{
  open_into, delete_once, Retrieved, marked_verified, retrieve_verified, retrieve_opened,
  retrieve_decrypted, retrieve_fetched, retrieve_delivered, retrieve_keyed, retrieve_known,
  retrieve,
}
use dero_ghost_drop.Drops.Ghost.Writes.{
  Ghostly, write-Ghostly, set_status-Ghostly, get_manifest-Ghostly,
}

module _ (lib : Library) (S : Store) where
  once :
      (d : Option Database.Db) (f : Faults S) (id : Bytes) (b : Bool) (m : Manager S)
      → Ghostly S d m
      → Ghostly S d (delete_once lib S f id b m)
  unfolding delete_once
  once d f id true m h = h
  once d f id false m h = h

  verified-Ghostly :
      (d : Option Database.Db) (f : Faults S) (id : Bytes) (man : Manifest) (now : ℕ)
      (m : Manager S)
      → Ghostly S d m
      → Ghostly S d (retrieve_verified lib S f id man now m)
  unfolding retrieve_verified marked_verified
  verified-Ghostly d f id man now m h =
      once d f id man.one_time (marked_verified lib S f id now m)
        (grind (arith, write-Ghostly S d, set_status-Ghostly S d))

  opened-Ghostly :
      (d : Option Database.Db) (f : Faults S) (id : Bytes) (man : Manifest) (now : ℕ)
      (plain : Bytes) (dst : Option Bytes) (m : Manager S)
      → Ghostly S d m
      → Ghostly S d (retrieve_opened lib S f id man now plain dst m).2
  unfolding retrieve_opened
  opened-Ghostly d f id man now plain dst m h =
      grind (arith, set_status-Ghostly S d, verified-Ghostly d)

  decrypted-Ghostly :
      (d : Option Database.Db) (f : Faults S) (id : Bytes) (man : Manifest) (now : ℕ)
      (r : Result Bytes × Option Bytes) (m : Manager S)
      → Ghostly S d m
      → Ghostly S d (retrieve_decrypted lib S f id man now r m).2
  unfolding retrieve_decrypted
  decrypted-Ghostly d f id man now (err e, dst) m h = set_status-Ghostly S d (f.db 2) id failed m h
  decrypted-Ghostly d f id man now (ok plain, dst) m h =
      opened-Ghostly d f id man now plain dst _ (set_status-Ghostly S d (f.db 3) id retrieved m h)

  fetched-Ghostly :
      (d : Option Database.Db) (f : Faults S) (id : Bytes) (man : Manifest) (key : Bytes) (now : ℕ)
      (dst : Option Bytes) (r : Storage.Result Bytes × S.State) (m : Manager S)
      → Ghostly S d m
      → Ghostly S d (retrieve_fetched lib S f id man key now dst r m).2
  unfolding retrieve_fetched
  fetched-Ghostly d f id man key now dst (Storage.err e, s) m h = h
  fetched-Ghostly d f id man key now dst (Storage.ok enc, s) m h =
      if_elim (λ (x : Retrieved lib S). Ghostly S d x.2) (f.temp_open || f.temp_read) h
        (decrypted-Ghostly d f id man now (open_into lib S f dst (open_file lib.aead key enc))
          (record m { store = s }) h)

  keyed-Ghostly :
      (d : Option Database.Db) (f : Faults S) (id : Bytes) (man : Manifest) (key : Result Bytes)
      (now : ℕ) (dst : Option Bytes) (m : Manager S)
      → Ghostly S d m
      → Ghostly S d (retrieve_keyed lib S f id man key now dst m).2
  unfolding retrieve_keyed retrieve_delivered
  keyed-Ghostly d f id man (err e) now dst m h = h
  keyed-Ghostly d f id man (ok key) now dst m h =
      let k = set_status-Ghostly S d (f.db 1) id delivered m h in
      if_elim (λ (x : Retrieved lib S). Ghostly S d x.2) f.cancelled h
        (if_elim (λ (x : Retrieved lib S). Ghostly S d x.2) f.temp k
          (fetched-Ghostly d f id man key now dst _ _ k))

  known-Ghostly :
      (d : Option Database.Db) (f : Faults S) (id : Bytes) (o : RetrieveOpts) (now : ℕ)
      (dst : Option Bytes) (r : Result Manifest × Manager S)
      → Ghostly S d r.1
      → Ghostly S d (retrieve_known lib S f id o now dst r).2
  unfolding retrieve_known
  known-Ghostly d f id o now dst (err e, m) h = h
  known-Ghostly d f id o now dst (ok man, m) h =
      if_elim (λ (x : Retrieved lib S). Ghostly S d x.2) (is_after (some now) man.expires_at)
        (set_status-Ghostly S d (f.db 0) id expired m h)
        (keyed-Ghostly d f id man (resolve_key lib man o) now dst m h)

  pub retrieve-Ghostly :
      (d : Option Database.Db) (id : Bytes) (o : RetrieveOpts) (now : ℕ) (f : Faults S)
      (dst : Option Bytes) (m : Manager S)
      → Ghostly S d m
      → Ghostly S d (retrieve lib S id o now f dst m).2
  unfolding retrieve
  retrieve-Ghostly d id o now f dst m h =
      known-Ghostly d f id o now dst (get_manifest S id m) (get_manifest-Ghostly S d id m h)
