-- ===== src/Drops/Ghost.antt =====
-- internal/drops/manager.go: ghost mode over a sequence of calls.
mod Writes
mod Creating
mod Retrieving
mod Querying
use mathlib.Core.Path.{subst}
use dero_ghost_drop.Base.{
  ◌||◌, if_elim, not, if_state_elim, ℕ, zero, ◌≤◌, ◌≡◌, ◌⊎◌, inl, inr, ◌∙◌, refl, sym, ap,
  if◌then◌else◌, Bool, true, false, List, [], ◌∷◌, Option, none, some, arith, Bytes, bytes_eq,
  bytes_eq_self, bytes_eq_iff, lookup, lookup-insert_self, insert, length, drop, drop,
}
use dero_ghost_drop.Base.Int.{pos}
use dero_ghost_drop.Storage.Types as Storage
use dero_ghost_drop.Storage.Types.{is_past, Blob}
use dero_ghost_drop.Storage.Ids.{validate_id}
use dero_ghost_drop.Storage.Store.{Store, IsLawful}
use dero_ghost_drop.Crypto.Gd01.{open_file, Opened, opened, refused}
use dero_ghost_drop.Manifest.Types.{Manifest}
use dero_ghost_drop.Manifest.Validate.{is_after, is_empty}
use dero_ghost_drop.Database as Database
use dero_ghost_drop.Drops.Types.{
  status_name, expired, Status, storage, no_random, no_temp, no_file, cancelled, failed, ready,
  uploading, encrypting, preparing, delivered, retrieved, verified, Error, Result, ok, err, Library,
  CreateOpts, RetrieveOpts, Random, Source,
}
use dero_ghost_drop.Drops.Locks.{resolve_key}
use dero_ghost_drop.Drops.Manager.{Manager, Faults, set_status, write, get_manifest, remember}
use dero_ghost_drop.Crypto.Nonce.{nonce_size}
use dero_ghost_drop.Drops.Prepare.{settle, Settled, Prepared, prepare}
use dero_ghost_drop.Drops.Create.{
  create, recorded, create_failed, create_stored, create_uploaded, create_prepared, create_keyed,
  create_started,
}
use dero_ghost_drop.Drops.Retrieve.{
  open_into, delete_once, Retrieved, marked_verified, retrieve_verified, retrieve_opened,
  retrieve_decrypted, retrieve_fetched, retrieve_delivered, retrieve_keyed, retrieve_known,
  retrieve,
}
use dero_ghost_drop.Drops.Deliver.{no_faults}
use dero_ghost_drop.Drops.Query.{
  db_status, status_row, status_cached, revoke, revoke_deleted, status_of, status_known,
  status_stored, status_unknown, resume_offset,
}
use dero_ghost_drop.Drops.Available.{Available, create-Available, set_status-store, write-store}
use dero_ghost_drop.Drops.Ghost.Creating.{create-Ghostly}
use dero_ghost_drop.Drops.Ghost.Retrieving.{retrieve-Ghostly}
use dero_ghost_drop.Drops.Ghost.Querying.{deleted-Ghostly, known_status-Ghostly}
use dero_ghost_drop.Drops.Ghost.Writes.{
  Ghostly, write-Ghostly, set_status-Ghostly, get_manifest-Ghostly, remember-Ghostly,
}

pub data Op (S : Store) : Type 0 where
  creates : CreateOpts → ℕ → Random → Option Source → Faults S → Op S
  retrieves : Bytes → RetrieveOpts → ℕ → Faults S → Option Bytes → Op S
  revokes : Bytes → ℕ → Faults S → Op S
  asks : Bytes → ℕ → Faults S → Op S
  resumes : Bytes → ℕ → Faults S → Op S

module _ (lib : Library) (S : Store) where
  unfoldable pub step : Op S → Manager S → Manager S
  step (creates o now r src f) m = (create lib S o now r src f m).1
  step (retrieves id o now f dst) m = (retrieve lib S id o now f dst m).2
  step (revokes id now f) m = (revoke S id now f m).1
  step (asks id now f) m = (status_of S id now f m).1
  step (resumes id now f) m = (resume_offset S id now f m).1

  unfoldable pub run : List (Op S) → Manager S → Manager S
  run [] m = m
  run (op ∷ ops) m = run ops (step op m)

  step-Ghostly :
      (d : Option Database.Db) (op : Op S) (m : Manager S) → Ghostly S d m → Ghostly S d (step op m)
  unfolding step revoke status_of resume_offset
  step-Ghostly d (creates o now r src f) m h = create-Ghostly lib S d o now r src f m h
  step-Ghostly d (retrieves id o now f dst) m h = retrieve-Ghostly lib S d id o now f dst m h
  step-Ghostly d (revokes id now f) m h =
      deleted-Ghostly S d f id now (S.delete f.store id m.store) m h
  step-Ghostly d (asks id now f) m h =
      known_status-Ghostly S d id now f (get_manifest S id m) (get_manifest-Ghostly S d id m h)
  step-Ghostly d (resumes id now f) m h = h

  run-Ghostly :
      (d : Option Database.Db) (ops : List (Op S)) (m : Manager S)
      → Ghostly S d m
      → Ghostly S d (run ops m)
  unfolding run
  run-Ghostly d [] m h = h
  run-Ghostly d (op ∷ ops) m h = run-Ghostly d ops (step op m) (step-Ghostly d op m h)

  -- In ghost mode no sequence of creations, retrievals, revocations and queries, with faults or not,
  -- writes to the database: it stays as it was, and the mode stays on.
  pub run_ghost :
      (ops : List (Op S)) (m : Manager S)
      → m.ghost ≡ true
      → ((run ops m).db ≡ m.db) × ((run ops m).ghost ≡ true)
  run_ghost ops m h = let (g, e) = run-Ghostly m.db ops m (h, refl) in (e, g)
