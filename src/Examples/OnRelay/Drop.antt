-- ===== src/Examples/OnRelay/Drop.antt =====
-- A relay with one drop of three bytes, before and after the upload.
use dero_ghost_drop.Base.{
  ℕ, ◌≡◌, refl, true, false, some, [], ◌∷◌, Bytes, codes, length, bytes_eq, lookup, insert, remove,
  total,
}
use mathlib.Core.Path.{subst}
use dero_ghost_drop.Strings.{trim_space}
use dero_ghost_drop.Relay.Ids.{valid_id}
use dero_ghost_drop.Relay.Disk.{
  is_empty, check_token, expired, stored_bytes, over_quota, save_meta, write_at, zeros,
}
use dero_ghost_drop.Base.Int.{pos, add_int64}
use dero_ghost_drop.Relay.Types.{Env, Config, CreateRequest, Meta, Server, Request, Faults}
use dero_ghost_drop.Relay.Trace.{Event, create, put, empty, step, run}
use dero_ghost_drop.Relay.Handlers.{
  parsed, handle_create, create_parsed, positive, create_sized, create_locked, new_meta, bin_exists,
  handle_put, put_found, put_at, put_copy, put_offset,
}
use dero_ghost_drop.Relay.Safety.Sound.{IsSound}
use dero_ghost_drop.Relay.Safety.Runs.{run-empty-IsSound}

-- Hashes that are the token itself, times that are the length of their text, and whole files served.
abbrev pub env : Env
env = record {
  sha256_hex = λ t. t;
  parse_time = λ t. some (length t);
  format_time = λ n. [];
  serve_content = λ file range. file;
}

abbrev pub cfg : Config
cfg = record { quota_bytes = pos 100 }

abbrev pub healthy : Faults
healthy = record {
  save_fails = false;
  open_fails = false;
  seek_fails = false;
  copy_fails = false;
  truncate_fails = false;
}

abbrev pub id : Bytes
id = codes "a1"

abbrev pub token : Bytes
token = codes "T"

abbrev pub ask : CreateRequest
ask = record { id = id; size_bytes = pos 3; expiry_rfc3339 = codes "later"; one_time = true }

abbrev pub req : Request
req = record { id = id; token = token; content_range = []; range = [] }

abbrev pub body : Bytes
body = 7 ∷ 8 ∷ 9 ∷ []

abbrev pub creation : Event
creation = create cfg 1 (some token) healthy (parsed ask)

abbrev pub upload : Event
upload = put 2 healthy req body

abbrev pub meta : ℕ → Meta
meta n = record {
  id = id;
  size_bytes = 3;
  expiry_rfc3339 = codes "later";
  one_time = true;
  token_hash = token;
  uploaded_bytes = n;
  created_at = [];
  served_full = false;
}

-- The relay behind the creation, and behind the upload.
abbrev pub declared : Server
declared = record {
  metas = (id, meta 0) ∷ [];
  bins = (id, []) ∷ [];
  tokens = (id, token) ∷ [];
  bytes_up = 0;
  bytes_down = 0;
  meta_stays = false;
  bin_stays = false;
}

abbrev pub sent : Server
sent = record {
  metas = (id, meta 3) ∷ [];
  bins = (id, body) ∷ [];
  tokens = (id, token) ∷ [];
  bytes_up = 3;
  bytes_down = 0;
  meta_stays = false;
  bin_stays = false;
}

run-creation : run env (creation ∷ []) empty ≡ declared
unfolding run step handle_create create_parsed positive create_sized create_locked new_meta
    bin_exists over_quota stored_bytes total add_int64 save_meta insert lookup remove valid_id
    bytes_eq
run-creation = refl

run-upload : run env (creation ∷ upload ∷ []) empty ≡ sent
unfolding run step handle_create create_parsed positive create_sized create_locked new_meta
    bin_exists over_quota stored_bytes total add_int64 save_meta insert lookup remove valid_id
    bytes_eq handle_put put_found put_at put_copy put_offset check_token expired is_empty trim_space
    write_at zeros
run-upload = refl

pub declared-IsSound : IsSound declared
declared-IsSound = subst IsSound run-creation (run-empty-IsSound env (creation ∷ []) (tt, tt))

pub sent-IsSound : IsSound sent
sent-IsSound =
    subst IsSound run-upload (run-empty-IsSound env (creation ∷ upload ∷ []) (tt, (refl, tt)))
