-- ===== src/Relay/Cases.antt =====
-- The replies and states in which the upload handler can end: a rule for properties of both.
use Prim.Native.String.{String}
use dero_ghost_drop.Base.{
  ℕ, ◌+◌, ◌-◌, ◌≤◌, ◌<◌, ◌≡◌, Bool, true, false, some, arith, Bytes, lookup, insert, length, take,
  ◌==◌, if◌then◌else◌,
}
use dero_ghost_drop.Relay.Types.{Env, Meta, Server, Request, Faults, Reply, fail, uploaded}
use dero_ghost_drop.Relay.Disk.{expired, delete_locked, save_meta, write_at}
use dero_ghost_drop.Relay.Handlers.{
  put_offset, write_from, refuse, copy_limit, put_copy, put_at, put_found, handle_put,
}

-- The reply acknowledges an upload.
abbrev pub is_ack : Reply → Bool
is_ack (uploaded id n complete) = true
is_ack _ = false

put_offset-refuse :
    (m : Meta) (header : Bytes) {r : Reply} → put_offset m header ≡ refuse r → is_ack r ≡ false
unfolding put_offset
put_offset-refuse m header h = ground arith

module _ {ℓ} (P : Reply → Server → Type ℓ) where
  pub put_copy_cases :
      (id : Bytes) (io : Faults) (m : Meta) (off : ℕ) (file body : Bytes) (s : Server)
      → let chunk = take (copy_limit (m.size_bytes - off)) body in
        let file' = write_at off chunk file in
        let s' = record s { bins = insert id file' s.bins } in
        ((code : ℕ) (text : String) → length chunk ≤ m.size_bytes - off → P (fail code text) s')
        → ((code : ℕ) (text : String)
            → P (fail code text) (record s {
              bins = insert id (if io.truncate_fails then file' else take off file') s.bins;
            }))
        → (length chunk ≤ m.size_bytes - off
            → P
                (uploaded id (off + length chunk) (off + length chunk == m.size_bytes))
                (record (save_meta (record m { uploaded_bytes = off + length chunk }) s') {
                  bytes_up = s.bytes_up + length chunk;
                }))
        → P (put_copy id io m off file body s).0 (put_copy id io m off file body s).1
  unfolding put_copy
  put_copy_cases id io m off file body s written back acked = ground (
    arith,
    written 400 "truncated body",
    written 500 "persist failure",
    back 400 "body exceeds declared size",
  )

  put_at_cases :
      (id : Bytes) (io : Faults) (m : Meta) (off : ℕ) (body : Bytes) (s : Server)
      → ((r : Reply) → is_ack r ≡ false → P r s)
      → ((file : Bytes)
          → lookup id s.bins ≡ some file
          → off < m.size_bytes
          → P (put_copy id io m off file body s).0 (put_copy id io m off file body s).1)
      → P (put_at id io m off body s).0 (put_at id io m off body s).1
  unfolding put_at
  put_at_cases id io m off body s same copy = grind arith

  handle_put_reaches :
      (env : Env) (now : ℕ) (io : Faults) (req : Request) (body : Bytes) (s : Server)
      → ((r : Reply) → is_ack r ≡ false → P r s)
      → ((m : Meta)
          → lookup req.id s.metas ≡ some m
          → expired env m now ≡ true
          → P (fail 410 "expired") (delete_locked m s))
      → ((m : Meta) (off : ℕ)
          → lookup req.id s.metas ≡ some m
          → put_offset m req.content_range ≡ write_from off
          → P (put_at req.id io m off body s).0 (put_at req.id io m off body s).1)
      → P (handle_put env now io req body s).0 (handle_put env now io req body s).1
  unfolding handle_put put_found
  handle_put_reaches env now io req body s same gone copy = grind (arith, put_offset-refuse)

  -- An upload that does not reach the copy leaves the state as it was, or deletes an expired drop.
  pub handle_put_cases :
      (env : Env) (now : ℕ) (io : Faults) (req : Request) (body : Bytes) (s : Server)
      → ((r : Reply) → is_ack r ≡ false → P r s)
      → ((m : Meta)
          → lookup req.id s.metas ≡ some m
          → expired env m now ≡ true
          → P (fail 410 "expired") (delete_locked m s))
      → ((m : Meta) (off : ℕ) (file : Bytes)
          → lookup req.id s.metas ≡ some m
          → put_offset m req.content_range ≡ write_from off
          → lookup req.id s.bins ≡ some file
          → off < m.size_bytes
          → P (put_copy req.id io m off file body s).0 (put_copy req.id io m off file body s).1)
      → P (handle_put env now io req body s).0 (handle_put env now io req body s).1
  handle_put_cases env now io req body s same gone copy =
      handle_put_reaches env now io req body s same gone λ m off e o.
        put_at_cases req.id io m off body s same (λ file f lt. copy m off file e o f lt)
