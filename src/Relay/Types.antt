-- ===== src/Relay/Types.antt =====
-- The data of internal/relay/server.go: configuration, requests, the records on disk, replies.
use Prim.Native.String.{String}
use dero_ghost_drop.Base.{ℕ, Bool, Option, Bytes, Map}
use dero_ghost_drop.Base.Int.{ℤ}

-- What the server relies on and does not implement: SHA-256 in hex, time.Parse(RFC3339) into
-- nanoseconds, the format of a time, and http.ServeContent, as the body that it sends for a file
-- and a Range header.
pub record Env : Type 0 where
  pub sha256_hex : Bytes → Bytes
  pub parse_time : Bytes → Option ℕ
  pub format_time : ℕ → Bytes
  pub serve_content : Bytes → Bytes → Bytes

-- Config, without the address and the sweep interval.
pub record Config : Type 0 where
  pub quota_bytes : ℤ

-- CreateRequest
pub record CreateRequest : Type 0 where
  pub id : Bytes
  pub size_bytes : ℤ
  pub expiry_rfc3339 : Bytes
  pub one_time : Bool

-- meta, the record in {id}.meta.json
pub record Meta : Type 0 where
  pub id : Bytes
  pub size_bytes : ℕ
  pub expiry_rfc3339 : Bytes
  pub one_time : Bool
  pub token_hash : Bytes
  pub uploaded_bytes : ℕ
  pub created_at : Bytes
  pub served_full : Bool

-- The server's token index and counters, and the data directory: {id}.meta.json and {id}.bin by
-- id, and whether os.Remove fails on the one or the other.
pub record Server : Type 0 where
  pub metas : Map Meta
  pub bins : Map Bytes
  pub tokens : Map Bytes
  pub bytes_up : ℕ
  pub bytes_down : ℕ
  pub meta_stays : Bool
  pub bin_stays : Bool

-- A request for one drop: r.PathValue("id") and the headers, "" where one is absent.
pub record Request : Type 0 where
  pub id : Bytes
  pub token : Bytes
  pub content_range : Bytes
  pub range : Bytes

-- Calls of the operating system that fail, for one request.
pub record Faults : Type 0 where
  pub save_fails : Bool
  pub open_fails : Bool
  pub seek_fails : Bool
  pub copy_fails : Bool
  pub truncate_fails : Bool

-- The status code and the JSON body.
pub data Reply : Type 0 where
  fail : ℕ → String → Reply
  conflict_at : String → ℕ → Reply
  created : Bytes → Bytes → Reply
  uploaded : Bytes → ℕ → Bool → Reply
  content : Bytes → Reply
  described : Meta → Reply
  deleted : Bytes → Reply
