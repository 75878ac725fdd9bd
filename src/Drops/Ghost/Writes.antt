-- ===== src/Drops/Ghost/Writes.antt =====
-- Ghost mode in the writes of internal/drops/manager.go to its state.
use dero_ghost_drop.Base.{◌≡◌, Bool, true, Option, arith, Bytes, insert}
use dero_ghost_drop.Storage.Store.{Store}
use dero_ghost_drop.Manifest.Types.{Manifest}
use dero_ghost_drop.Database as Database
use dero_ghost_drop.Drops.Types.{status_name, Status}
use dero_ghost_drop.Drops.Manager.{Manager, Faults, set_status, write, get_manifest, remember}

module _ (S : Store) where
  abbrev pub Ghostly : Option Database.Db → Manager S → Type 0
  Ghostly d m = (m.ghost ≡ true) × (m.db ≡ d)

  pub write-Ghostly :
      (d : Option Database.Db) (st : Database.Db → Database.Result (Unit {0}) × Database.Db)
      (m : Manager S)
      → Ghostly d m
      → Ghostly d (write S st m)
  unfolding write
  write-Ghostly d st m h = (ground arith, ground arith)

  pub set_status-Ghostly :
      (d : Option Database.Db) (fails : Bool) (id : Bytes) (st : Status) (m : Manager S)
      → Ghostly d m
      → Ghostly d (set_status S fails id st m)
  unfolding set_status
  set_status-Ghostly d fails id st m h =
      write-Ghostly d (Database.update_status fails id (status_name st))
        (record m { statuses = insert id st m.statuses }) h

  pub get_manifest-Ghostly :
      (d : Option Database.Db) (id : Bytes) (m : Manager S)
      → Ghostly d m
      → Ghostly d (get_manifest S id m).1
  unfolding get_manifest
  get_manifest-Ghostly d id m h = (ground arith, ground arith)

  pub remember-Ghostly :
      (d : Option Database.Db) (f : Faults S) (id : Bytes) (man : Manifest) (st : Status)
      (m : Manager S)
      → Ghostly d m
      → Ghostly d (remember S f id man st m)
  unfolding remember
  remember-Ghostly d f id man st m h = h
