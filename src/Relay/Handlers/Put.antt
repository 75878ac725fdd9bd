-- ===== src/Relay/Handlers/Put.antt =====
-- handlePut
use dero_ghost_drop.Base.{
  ℕ, ◌+◌, ◌-◌, ◌^◌, not, none, some, Bytes, lookup, insert, ◌==◌, ltb, leb, ◌&&◌, length, take,
  if◌then◌else◌,
}
use dero_ghost_drop.Strings.{trim_space}
use dero_ghost_drop.Transport.ContentRange.{parse_content_range}
use dero_ghost_drop.Relay.Types.{
  Env, Meta, Server, Request, Faults, Reply, fail, conflict_at, uploaded,
}
use dero_ghost_drop.Relay.Ids.{valid_id}
use dero_ghost_drop.Relay.Disk.{is_empty, check_token, expired, delete_locked, save_meta, write_at}

-- The write offset, or the reply that refuses the request.
pub data Offset : Type 0 where
  write_from : ℕ → Offset
  refuse : Reply → Offset

-- Content-Range for a resume, else a single shot at 0.
unfoldable pub put_offset : Meta → Bytes → Offset
put_offset m header =
    let cr = trim_space header in
    if is_empty cr
    then (if not (m.uploaded_bytes == 0)
        then refuse (conflict_at "resume with Content-Range" m.uploaded_bytes)
        else write_from 0)
    else elim (parse_content_range cr) [
      | none ↦ refuse (fail 400 "invalid Content-Range")
      | some p ↦
          if not (p.total == m.size_bytes)
          then refuse (fail 400 "Content-Range total mismatch")
          else if not (p.start == m.uploaded_bytes)
          then refuse (conflict_at "offset mismatch" m.uploaded_bytes)
          else write_from p.start
    ]

-- remain + 1, the bytes that io.CopyN may take: for the largest int64 the sum is negative, and
-- nothing is copied.
unfoldable pub copy_limit : ℕ → ℕ
copy_limit remain = if ltb remain (2 ^ 63 - 1) then remain + 1 else 0

-- The copy of at most `remain + 1` bytes into the file at `off`, and what comes after it. `body` is
-- what arrives before the end or before an error; `copy_fails` says that it was an error. What
-- f.Truncate says is ignored.
unfoldable pub put_copy : Bytes → Faults → Meta → ℕ → Bytes → Bytes → Server → Reply × Server
unfolding copy_limit
put_copy id io m off file body s =
    let remain = m.size_bytes - off in
    let limit = copy_limit remain in
    let chunk = take limit body in
    let written = length chunk in
    let file' = write_at off chunk file in
    let s' = record s { bins = insert id file' s.bins } in
    let m' = record m { uploaded_bytes = off + written } in
    if io.copy_fails && ltb written limit
    then (fail 400 "truncated body", s')
    else if ltb remain written
    then (
      fail 400 "body exceeds declared size",
      record s { bins = insert id (if io.truncate_fails then file' else take off file') s.bins },
    )
    else if io.save_fails
    then (fail 500 "persist failure", s')
    else (
      uploaded id (off + written) (off + written == m.size_bytes),
      record (save_meta m' s') { bytes_up = s.bytes_up + written },
    )

-- Behind the checks on the drop.
unfoldable pub put_at : Bytes → Faults → Meta → ℕ → Bytes → Server → Reply × Server
put_at id io m off body s =
    if leb m.size_bytes off
    then (fail 400 "drop already complete", s)
    else elim (lookup id s.bins) [
      | none ↦ (fail 404 "not found", s)
      | some file ↦
          if io.open_fails
          then (fail 404 "not found", s)
          else if io.seek_fails
          then (fail 500 "seek failure", s)
          else put_copy id io m off file body s
    ]

unfoldable pub put_found : Env → ℕ → Faults → Request → Bytes → Meta → Server → Reply × Server
put_found env now io req body m s =
    if not (check_token env req.token m.token_hash)
    then (fail 401 "unauthorized", s)
    else if expired env m now
    then (fail 410 "expired", delete_locked m s)
    else elim (put_offset m req.content_range) [
      | refuse r ↦ (r, s)
      | write_from off ↦ put_at req.id io m off body s
    ]

unfoldable pub handle_put : Env → ℕ → Faults → Request → Bytes → Server → Reply × Server
handle_put env now io req body s =
    if not (valid_id req.id) then (fail 400 "invalid id", s) else elim (lookup req.id s.metas) [
      | none ↦ (fail 404 "not found", s)
      | some m ↦ put_found env now io req body m s
    ]
