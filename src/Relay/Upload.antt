-- ===== src/Relay/Upload.antt =====
-- Uploads: what is acknowledged is stored, and what is stored is what was sent.
use dero_ghost_drop.Base.{
  ℕ, ◌+◌, ◌-◌, ◌^◌, ◌<◌, ◌≤◌, if◌then◌else◌, ◌≡◌, ◌∙◌, ap, Bool, true, false, Option, none, some,
  ◌++◌, arith, Bytes, lookup, insert, lookup-insert, lookup-insert_self, bytes_eq_iff, length, take,
  take_of_length-le, length-take,
}
use dero_ghost_drop.Relay.Types.{Env, Meta, Server, Request, Faults}
use dero_ghost_drop.Relay.Disk.{expired, save_meta, write_at}
use dero_ghost_drop.Relay.Files.{take-write_at, take-write_at_before}
use dero_ghost_drop.Relay.Cases.{is_ack, put_copy_cases, handle_put_cases}
use dero_ghost_drop.Relay.Handlers.{copy_limit, put_copy, handle_put}
use dero_ghost_drop.Relay.Safety.Sound.{IsSound}
use dero_ghost_drop.Relay.Safety.Keeps.{put_offset-eq_uploaded}

-- The abstract view of a drop: the bytes that the relay has acknowledged.
abbrev acked_of : Option Meta → Option Bytes → Option Bytes
acked_of (some m) (some file) = some (take m.uploaded_bytes file)
acked_of _ _ = none

abbrev pub acked : Bytes → Server → Option Bytes
acked id s = acked_of (lookup id s.metas) (lookup id s.bins)

-- What an upload should do to that view.
abbrev pub grown : Bool → Bytes → Option Bytes → Option Bytes
grown true body (some old) = some (old ++ body)
grown true body none = none
grown false body old = old

module _ (id : Bytes) (m : Meta) (file body : Bytes) (s : Server) (h : IsSound s)
    (e : lookup id s.metas ≡ some m) (f : lookup id s.bins ≡ some file) where
  bounds : (m.id ≡ id) × (m.uploaded_bytes ≤ length file) × (length file ≤ m.size_bytes)
  bounds = ground (arith, h.entry id)

  acked_before : acked id s ≡ some (take m.uploaded_bytes file)
  acked_before = rw (e, f)

  -- A copy that is not acknowledged keeps the acknowledged bytes.
  acked_write :
      (chunk : Bytes)
      → acked id (record s { bins = insert id (write_at m.uploaded_bytes chunk file) s.bins })
        ≡ acked id s
  acked_write chunk =
      rw (e, lookup-insert_self id (write_at m.uploaded_bytes chunk file) s.bins, f)
        (ap some (take-write_at_before m.uploaded_bytes chunk file bounds.1))

  acked_truncated :
      (chunk : Bytes)
      → acked id (record s {
        bins = insert id (take m.uploaded_bytes (write_at m.uploaded_bytes chunk file)) s.bins;
      })
        ≡ acked id s
  acked_truncated chunk =
      let kept = take m.uploaded_bytes (write_at m.uploaded_bytes chunk file) in
      rw (e, lookup-insert_self id kept s.bins, f)
        (ap some (
          take_of_length-le m.uploaded_bytes kept
            (omega (arith, length-take m.uploaded_bytes (write_at m.uploaded_bytes chunk file)))
          ∙ take-write_at_before m.uploaded_bytes chunk file bounds.1))

  -- Whether the truncation fails or not, the acknowledged bytes stay.
  acked_roll_back :
      (io : Faults) (chunk : Bytes)
      → let written = write_at m.uploaded_bytes chunk file in
        acked id (record s {
          bins =
              insert id
                (if io.truncate_fails then written else take m.uploaded_bytes written)
                s.bins;
        })
        ≡ acked id s
  acked_roll_back io chunk =
      let written = write_at m.uploaded_bytes chunk file in go io.truncate_fails
    where
      go :
          (b : Bool)
          → acked id (record s {
            bins =
                insert id
                  (if b
                    then write_at m.uploaded_bytes chunk file
                    else take m.uploaded_bytes (write_at m.uploaded_bytes chunk file))
                  s.bins;
          })
            ≡ acked id s
      go true = acked_write chunk
      go false = acked_truncated chunk

  acked_done :
      length body ≤ m.size_bytes - m.uploaded_bytes
      → (up : ℕ)
      → acked id
          (record (save_meta
            (record m { uploaded_bytes = m.uploaded_bytes + length body })
            (record s { bins = insert id (write_at m.uploaded_bytes body file) s.bins })) {
              bytes_up = up;
            })
        ≡ grown true body (acked id s)
  unfolding save_meta
  acked_done le up =
      rw
        (
          lookup-insert m.id id (record m { uploaded_bytes = m.uploaded_bytes + length body })
              s.metas,
          (bytes_eq_iff m.id id).1 bounds.0,
          lookup-insert_self id (write_at m.uploaded_bytes body file) s.bins,
          e,
          f,
        )
        (ap some (take-write_at m.uploaded_bytes body file bounds.1))

  limit_small :
      m.size_bytes < 2 ^ 63 - 1
      → copy_limit (m.size_bytes - m.uploaded_bytes) ≡ m.size_bytes - m.uploaded_bytes + 1
  unfolding copy_limit
  limit_small small = ground arith

  chunk_whole :
      m.size_bytes < 2 ^ 63 - 1
      → length (take (copy_limit (m.size_bytes - m.uploaded_bytes)) body)
        ≤ m.size_bytes - m.uploaded_bytes
      → take (copy_limit (m.size_bytes - m.uploaded_bytes)) body ≡ body
  chunk_whole small le = take_of_length-le (copy_limit (m.size_bytes - m.uploaded_bytes)) body (
      omega
        (arith, limit_small small, length-take (copy_limit (m.size_bytes - m.uploaded_bytes)) body))

  put_copy-grown :
      (io : Faults)
      → m.size_bytes < 2 ^ 63 - 1
      → let (r, t) = put_copy id io m m.uploaded_bytes file body s in
        acked id t ≡ grown (is_ack r) body (acked id s)
  put_copy-grown io small =
      put_copy_cases (λ r t. acked id t ≡ grown (is_ack r) body (acked id s)) id io m
        m.uploaded_bytes file body s
        (λ _ _ _. acked_write (take (copy_limit (m.size_bytes - m.uploaded_bytes)) body))
        (λ _ _. acked_roll_back io (take (copy_limit (m.size_bytes - m.uploaded_bytes)) body))
        (λ le.
          rw (chunk_whole small le) (
            acked_done (omega (arith, ap length (chunk_whole small le)))
              (s.bytes_up + length body)))

-- In a well-formed state an upload to a drop that has not expired and whose declared size is not the
-- largest int64 appends exactly the body to the acknowledged bytes if the reply acknowledges it, and leaves the acknowledged bytes as they were
-- on every other reply: a refused, truncated or oversized upload, and one whose record could not be
-- saved, can be resumed.
pub handle_put-grown :
    (env : Env) (now : ℕ) (io : Faults) (req : Request) (body : Bytes) (s : Server)
    → IsSound s
    → ((m : Meta) → lookup req.id s.metas ≡ some m → expired env m now ≡ false)
    → ((m : Meta) → lookup req.id s.metas ≡ some m → m.size_bytes < 2 ^ 63 - 1)
    → let (r, t) = handle_put env now io req body s in
      acked req.id t ≡ grown (is_ack r) body (acked req.id s)
handle_put-grown env now io req body s h live small =
    handle_put_cases (λ r t. acked req.id t ≡ grown (is_ack r) body (acked req.id s)) env now io req
      body s (λ r e. rw e) (λ m e x. cc (live m e))
      (λ m off file e o f lt.
        rw (put_offset-eq_uploaded m req.content_range o)
          (put_copy-grown req.id m file body s h e f io (small m e)))
