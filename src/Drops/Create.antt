-- ===== src/Drops/Create.antt =====
-- internal/drops/manager.go: Create. A step of it that fails sets FAILED.
use dero_ghost_drop.Base.{
  ℕ, false, not, Option, none, some, ◌++◌, Bytes, codes, length, if◌then◌else◌,
}
use dero_ghost_drop.Base.Int.{pos}
use dero_ghost_drop.Storage.Types as Storage
use dero_ghost_drop.Storage.Ids.{validate_id}
use dero_ghost_drop.Storage.Store.{Store}
use dero_ghost_drop.Manifest.Types.{Manifest}
use dero_ghost_drop.Database as Database
use dero_ghost_drop.Drops.Types.{
  status_name, preparing, encrypting, uploading, ready, failed, Error, Result, ok, err, Library,
  CreateOpts, Random, Source, bad_id, no_file, no_random, no_temp, cancelled, storage,
}
use dero_ghost_drop.Drops.Manager.{Manager, Faults, set_status, write, remember}
use dero_ghost_drop.Drops.Prepare.{Settled, settle, Prepared, prepare}

module _ (lib : Library) (S : Store) where
  abbrev pub Created : Type 0
  Created = Result (Manifest × Bytes) × Manager S

  unfoldable pub create_failed : Faults S → Bytes → Error → Manager S → Created
  create_failed f id e m = (err e, set_status S (f.db 9) id failed m)

  unfoldable pub row : CreateOpts → Settled → ℕ → Prepared → Database.Drop
  row o c now p = record {
    id = c.id;
    mode = c.mode;
    recipient = o.recipient_commitment;
    created_at = now;
    expires_at = c.expiry;
    status = status_name ready;
    payload_hash = p.man.payload_hash;
    size = pos (length p.payload);
    storage_ref = S.backend ++ (codes "/" ++ c.id);
    verified = false;
  }

  -- Behind a Put without an error.
  unfoldable pub recorded : CreateOpts → Settled → ℕ → Faults S → Prepared → Manager S → Manager S
  recorded o c now f p m =
      write S (Database.add_event (f.db 4) c.id (codes "created") (codes "mode=" ++ c.mode) now)
        (write S (Database.upsert_drop (f.db 3) (row o c now p)) (remember S f c.id p.man ready m))

  -- From the upload on.
  unfoldable pub create_stored :
      CreateOpts
      → Settled
      → ℕ
      → Faults S
      → Bytes
      → Prepared
      → Storage.Result (Unit {0}) × S.State
      → Manager S
      → Created
  create_stored o c now f key p (Storage.err e, s) m =
      create_failed f c.id (storage e) (record m { store = s })
  create_stored o c now f key p (Storage.ok u, s) m =
      (ok (p.man, key), recorded o c now f p (record m { store = s }))

  unfoldable pub create_uploaded :
      CreateOpts → Settled → ℕ → Faults S → Bytes → Prepared → Manager S → Created
  create_uploaded o c now f key p m =
      if f.temp_open
      then create_failed f c.id no_temp m
      else create_stored o c now f key p
          (S.put f.store c.id (record { bytes = p.payload; fails = f.temp_read })
            (pos (length p.payload)) (some c.expiry) m.store)
          m

  unfoldable pub create_prepared :
      CreateOpts → Settled → ℕ → Faults S → Bytes → Result Prepared → Manager S → Created
  create_prepared o c now f key (err e) m = create_failed f c.id e m
  create_prepared o c now f key (ok p) m =
      create_uploaded o c now f key p (set_status S (f.db 2) c.id uploading m)

  -- From the file key on.
  unfoldable pub create_keyed :
      CreateOpts → Settled → ℕ → Random → Source → Faults S → Option Bytes → Manager S → Created
  create_keyed o c now r src f none m = create_failed f c.id no_random m
  create_keyed o c now r src f (some key) m =
      create_prepared o c now f key (prepare lib S o c now r src key f)
        (set_status S (f.db 1) c.id encrypting m)

  -- From the os.Stat of srcPath on.
  unfoldable pub create_started :
      CreateOpts → Settled → ℕ → Random → Faults S → Option Source → Manager S → Created
  create_started o c now r f none m = create_failed f c.id no_file m
  create_started o c now r f (some src) m =
      if f.cancelled
      then create_failed f c.id cancelled m
      else create_keyed o c now r src f r.file_key m

  -- Create
  unfoldable pub create : CreateOpts → ℕ → Random → Option Source → Faults S → Manager S → Created
  create o now r src f m =
      let c = settle o r now in
      if not (validate_id c.id)
      then (err bad_id, m)
      else create_started o c now r f src (set_status S (f.db 0) c.id preparing m)
