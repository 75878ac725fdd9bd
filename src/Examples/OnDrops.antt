-- ===== src/Examples/OnDrops.antt =====
-- A drop of three bytes on a provider in memory.
use dero_ghost_drop.Base.{
  ◌≡◌, refl, true, false, Option, none, some, List, [], ◌∷◌, ◌++◌, Bytes, codes, lookup, bytes_eq,
  arith, total,
}
use dero_ghost_drop.Base.Int.{pos, ◌-ℤ◌, ◌+ℤ◌}
use dero_ghost_drop.Strings.{hex_encode, hex_digit, hex_decode, hex_pair, hex_value, after_prefix}
use dero_ghost_drop.Storage.Ids.{validate_id}
use dero_ghost_drop.Crypto.Gd01.{seal_file, seal_loop, seal_chunk, chunk_size, magic}
use dero_ghost_drop.Crypto.Words.{be32, be64}
use dero_ghost_drop.Crypto.Nonce.{chunk_nonce, xor_bytes}
use dero_ghost_drop.Crypto.SingleShot.{seal_bytes}
use dero_ghost_drop.Manifest.Validate.{
  validate, known_mode, is_empty, is_some, is_after, is_negative, file_ok, files_ok,
}
use dero_ghost_drop.Manifest.Filenames.{encrypt_filenames, encrypt_names, set_files, entry_of}
use dero_ghost_drop.Drops.Locks.{lock_recipient, lock_password, resolve_key}
use dero_ghost_drop.Drops.Prepare.{
  settle, expiry_of, prepare, finished, signed, checked, described, unless,
}
use dero_ghost_drop.Drops.Retrieve.{retrieve}
use dero_ghost_drop.Drops.Query.{revoke, revoke_deleted}
use dero_ghost_drop.Drops.Available.{Available, create-Available}
use dero_ghost_drop.Drops.Verified.{Delivery, retrieve_ok}
use dero_ghost_drop.Drops.Revoked.{status_in, retrieve-revoke}
use dero_ghost_drop.Drops.Ghost.{Op, creates, retrieves, revokes, run, run_ghost}
use dero_ghost_drop.Database.Consistent.{empty}
use dero_ghost_drop.Storage.Memory.{
  Provider, put, put_sized, put_data, put_locked, read_all, old_size, delete,
}
use dero_ghost_drop.Storage.Memory.Sound.{IsSound}
use dero_ghost_drop.Storage.Memory.Lawful.{view, memory_store, memory_store-IsLawful}
use dero_ghost_drop.Manifest.Types.{
  Manifest, unsigned, cipher_suite, new, set_file_info, set_info, manifest_chunk_size,
}
use dero_ghost_drop.Drops.Types.{
  Error, Result, ok, err, verified, revoked, delivered, CreateOpts, RetrieveOpts, Random, Source,
}
use dero_ghost_drop.Drops.Manager.{Manager, set_status, write}
use dero_ghost_drop.Drops.Create.{
  create, create_started, create_keyed, create_prepared, create_uploaded, create_stored,
}
use dero_ghost_drop.Drops.Deliver.{no_faults, retrieve-create}
use dero_ghost_drop.Examples.Toys.{lib, zeros32, nonce, tag}

abbrev id : Bytes
id = codes "GD-0123456789ab"

abbrev provider : Provider
provider = record { items = []; used = pos 0; max_bytes = 1000 }

provider-IsSound : IsSound provider
unfolding total
provider-IsSound = record { unique = tt; accounted = refl; within = omega arith }

abbrev manager : Manager memory_store
manager = record {
  store = provider;
  db = some empty;
  ghost = true;
  files = none;
  manifests = [];
  statuses = [];
}

abbrev pub opts : CreateOpts
opts = record {
  id = id;
  mode = [];
  sender_identity = [];
  recipient_commitment = [];
  expiry = some 100;
  one_time = true;
  sign_priv = [];
  sign_by = [];
  recipient_pub = none;
  password = [];
  amount = 0;
  paid_to = [];
  txid_required = false;
}

abbrev random : Random
random = record {
  id = [];
  file_key = some zeros32;
  header_nonce = some nonce;
  name_nonce = some nonce;
  ephem_priv = some zeros32;
  wrap_nonce = some nonce;
  salt = some tag;
  password_nonce = some nonce;
}

abbrev file : Source
file = record { name = codes "a"; bytes = 7 ∷ 8 ∷ 9 ∷ []; fails = false }

abbrev made : Result (Manifest × Bytes) × Manager memory_store
made = create lib memory_store opts 5 random (some file) (no_faults memory_store) manager

-- What Create seals and describes.
abbrev sealed : Bytes
sealed = codes "GD01" ++ (nonce ++ (0 ∷ 0 ∷ 0 ∷ 19 ∷ 7 ∷ 8 ∷ 9 ∷ tag))

abbrev pub man : Manifest
man = record {
  drop_id = id;
  version = 1;
  created_at = some 5;
  expires_at = some 100;
  mode = codes "anonymous";
  sender_identity = [];
  recipient_commitment = [];
  cipher = cipher_suite;
  payload_hash = sealed;
  payload_size = pos 51;
  plaintext_hash = 7 ∷ 8 ∷ 9 ∷ [];
  file_count = 1;
  files =
      record {
        name_enc = codes "6100000000000000000000000000000000";
        nonce = codes "090909090909090900000000000000000000000000000000";
        size = pos 3;
        hash = 7 ∷ 8 ∷ 9 ∷ [];
      }
      ∷ [];
  storage = record { backend = codes "memory"; ref = id };
  access = record { wrapped_key = []; ephem_pub = []; passphrase_salt = []; kdf = [] };
  payment = record { amount = 0; address = []; txid_required = false };
  one_time = true;
  signature = unsigned;
  chunk_size = 1048576;
}

made_ok : made.0 ≡ ok (man, zeros32)
unfolding create settle expiry_of create_started create_keyed create_prepared create_uploaded
    create_stored prepare finished signed checked described unless lock_recipient lock_password
    seal_file seal_loop seal_chunk chunk_size magic be32 be64 chunk_nonce xor_bytes
    encrypt_filenames encrypt_names set_files entry_of seal_bytes hex_encode hex_digit set_file_info
    set_info new manifest_chunk_size validate known_mode is_empty is_some is_after is_negative
    file_ok files_ok after_prefix hex_decode hex_pair hex_value validate_id bytes_eq put put_sized
    put_data put_locked read_all old_size ◌-ℤ◌ ◌+ℤ◌ set_status write lookup
made_ok = refl

abbrev with_key : RetrieveOpts
with_key = record { key = some zeros32; recipient_priv = none; password = [] }

key_found : resolve_key lib man with_key ≡ ok zeros32
unfolding resolve_key
key_found = refl

in_time : is_after (some 50) man.expires_at ≡ false
unfolding is_after
in_time = refl

abbrev taken : Result (Unit {0}) × Option Bytes × Manager memory_store
taken =
    retrieve lib memory_store (settle opts random 5).id with_key 50 (no_faults memory_store) none
      made.1

retrieve-create_example :
    (taken.0 ≡ ok tt)
    × (taken.1 ≡ some (7 ∷ 8 ∷ 9 ∷ []))
    × (lookup (settle opts random 5).id taken.2.statuses ≡ some verified)
    × (view taken.2.store (settle opts random 5).id ≡ none)
retrieve-create_example =
    retrieve-create lib memory_store memory_store-IsLawful opts 5 random file
      (no_faults memory_store) manager nonce provider-IsSound refl refl made_ok with_key 50 none
      key_found in_time

there : Available lib memory_store made.1 (settle opts random 5).id man zeros32 (7 ∷ 8 ∷ 9 ∷ [])
there =
    create-Available lib memory_store memory_store-IsLawful opts 5 random file
      (no_faults memory_store) manager nonce provider-IsSound refl refl made_ok

taken_ok : taken.0 ≡ ok tt
taken_ok =
    (retrieve-create lib memory_store memory_store-IsLawful opts 5 random file
      (no_faults memory_store) manager nonce provider-IsSound refl refl made_ok with_key 50 none
      key_found in_time).0

retrieve_ok_example : Delivery lib memory_store made.1 (settle opts random 5).id with_key 50 taken.1
retrieve_ok_example =
    retrieve_ok lib memory_store memory_store-IsLawful (settle opts random 5).id with_key 50
      (no_faults memory_store) none made.1 there.sound taken_ok

abbrev undone : Result (Unit {0}) × Manager memory_store
undone = revoke memory_store (settle opts random 5).id 20 (no_faults memory_store) made.1

revoke_ok :
    (i : Bytes) (m : Manager memory_store)
    → (revoke memory_store i 20 (no_faults memory_store) m).0 ≡ ok tt
unfolding revoke revoke_deleted delete
revoke_ok i m = ground arith

undone_ok : undone.0 ≡ ok tt
undone_ok = revoke_ok (settle opts random 5).id made.1

abbrev refused : Result (Unit {0}) × Option Bytes × Manager memory_store
refused =
    retrieve lib memory_store (settle opts random 5).id with_key 50 (no_faults memory_store) none
      undone.1

retrieve-revoke_example :
    (status_in lib memory_store (settle opts random 5).id undone.1 ≡ some revoked)
    × ((e : Error) × (refused.0 ≡ err e)
        × (refused.1 ≡ none)
        × (status_in lib memory_store (settle opts random 5).id refused.2 ≡ some delivered))
retrieve-revoke_example =
    retrieve-revoke lib memory_store memory_store-IsLawful (settle opts random 5).id 20 50
      (no_faults memory_store) (no_faults memory_store) made.1 man with_key zeros32 none there.sound
      undone_ok there.known key_found in_time refl refl

abbrev calls : List (Op memory_store)
calls =
    creates opts 5 random (some file) (no_faults memory_store)
    ∷ retrieves id with_key 50 (no_faults memory_store) none
    ∷ revokes id 60 (no_faults memory_store)
    ∷ []

run_ghost_example :
    ((run lib memory_store calls manager).db ≡ some empty)
    × ((run lib memory_store calls manager).ghost ≡ true)
run_ghost_example = run_ghost lib memory_store calls manager refl
