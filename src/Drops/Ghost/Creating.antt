-- ===== src/Drops/Ghost/Creating.antt =====
-- Ghost mode in Create of internal/drops/manager.go.
use dero_ghost_drop.Base.{not, if_state_elim, ℕ, Option, none, some, arith, Bytes}
use dero_ghost_drop.Storage.Types as Storage
use dero_ghost_drop.Storage.Types.{is_past, Blob}
use dero_ghost_drop.Storage.Ids.{validate_id}
use dero_ghost_drop.Storage.Store.{Store}
use dero_ghost_drop.Database as Database
use dero_ghost_drop.Drops.Types.{
  storage, no_random, no_temp, no_file, cancelled, failed, ready, uploading, encrypting, preparing,
  Error, Result, ok, err, Library, CreateOpts, Random, Source,
}
use dero_ghost_drop.Drops.Manager.{Manager, Faults}
use dero_ghost_drop.Drops.Prepare.{settle, Settled, Prepared, prepare}
use dero_ghost_drop.Drops.Create.{
  create, recorded, create_failed, create_stored, create_uploaded, create_prepared, create_keyed,
  create_started,
}
use dero_ghost_drop.Drops.Ghost.Writes.{
  Ghostly, write-Ghostly, set_status-Ghostly, remember-Ghostly,
}

module _ (lib : Library) (S : Store) where
  recorded-Ghostly :
      (d : Option Database.Db) (o : CreateOpts) (c : Settled) (now : ℕ) (f : Faults S)
      (p : Prepared) (m : Manager S)
      → Ghostly S d m
      → Ghostly S d (recorded lib S o c now f p m)
  unfolding recorded
  recorded-Ghostly d o c now f p m h =
      grind (arith, write-Ghostly S d, remember-Ghostly S d f c.id p.man ready m)

  create_failed-Ghostly :
      (d : Option Database.Db) (f : Faults S) (id : Bytes) (e : Error) (m : Manager S)
      → Ghostly S d m
      → Ghostly S d (create_failed lib S f id e m).1
  unfolding create_failed
  create_failed-Ghostly d f id e m h = set_status-Ghostly S d (f.db 9) id failed m h

  create_stored-Ghostly :
      (d : Option Database.Db) (o : CreateOpts) (c : Settled) (now : ℕ) (f : Faults S) (key : Bytes)
      (p : Prepared) (r : Storage.Result (Unit {0}) × S.State) (m : Manager S)
      → Ghostly S d m
      → Ghostly S d (create_stored lib S o c now f key p r m).1
  unfolding create_stored
  create_stored-Ghostly d o c now f key p (Storage.err e, s) m h =
      create_failed-Ghostly d f c.id (storage e) (record m { store = s }) h
  create_stored-Ghostly d o c now f key p (Storage.ok u, s) m h =
      recorded-Ghostly d o c now f p (record m { store = s }) h

  create_prepared-Ghostly :
      (d : Option Database.Db) (o : CreateOpts) (c : Settled) (now : ℕ) (f : Faults S) (key : Bytes)
      (p : Result Prepared) (m : Manager S)
      → Ghostly S d m
      → Ghostly S d (create_prepared lib S o c now f key p m).1
  unfolding create_prepared create_uploaded
  create_prepared-Ghostly d o c now f key (err e) m h = create_failed-Ghostly d f c.id e m h
  create_prepared-Ghostly d o c now f key (ok p) m h =
      let k = set_status-Ghostly S d (f.db 2) c.id uploading m h in
      if_state_elim (Ghostly S d) _ _ f.temp_open (create_failed-Ghostly d f c.id no_temp _ k)
        (create_stored-Ghostly d o c now f key p _ _ k)

  create_keyed-Ghostly :
      (d : Option Database.Db) (o : CreateOpts) (c : Settled) (now : ℕ) (r : Random) (src : Source)
      (f : Faults S) (k : Option Bytes) (m : Manager S)
      → Ghostly S d m
      → Ghostly S d (create_keyed lib S o c now r src f k m).1
  unfolding create_keyed
  create_keyed-Ghostly d o c now r src f none m h = create_failed-Ghostly d f c.id no_random m h
  create_keyed-Ghostly d o c now r src f (some key) m h =
      create_prepared-Ghostly d o c now f key (prepare lib S o c now r src key f) _
        (set_status-Ghostly S d (f.db 1) c.id encrypting m h)

  create_started-Ghostly :
      (d : Option Database.Db) (o : CreateOpts) (c : Settled) (now : ℕ) (r : Random) (f : Faults S)
      (src : Option Source) (m : Manager S)
      → Ghostly S d m
      → Ghostly S d (create_started lib S o c now r f src m).1
  unfolding create_started
  create_started-Ghostly d o c now r f none m h = create_failed-Ghostly d f c.id no_file m h
  create_started-Ghostly d o c now r f (some src) m h =
      if_state_elim (Ghostly S d) _ _ f.cancelled (create_failed-Ghostly d f c.id cancelled m h)
        (create_keyed-Ghostly d o c now r src f r.file_key m h)

  pub create-Ghostly :
      (d : Option Database.Db) (o : CreateOpts) (now : ℕ) (r : Random) (src : Option Source)
      (f : Faults S) (m : Manager S)
      → Ghostly S d m
      → Ghostly S d (create lib S o now r src f m).1
  unfolding create
  create-Ghostly d o now r src f m h =
      if_state_elim (Ghostly S d) _ _ (not (validate_id (settle o r now).id)) h (
        create_started-Ghostly d o (settle o r now) now r f src _
          (set_status-Ghostly S d (f.db 0) (settle o r now).id preparing m h))
