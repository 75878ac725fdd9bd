-- ===== src/Relay/Download.antt =====
-- What was uploaded is what is downloaded.
use native.Mathlib.Nat.{zero-add}
use dero_ghost_drop.Base.{
  ℕ, ◌+◌, ◌-◌, ◌^◌, ◌<◌, ◌≤◌, ◌≡◌, refl, sym, ap, ◌∙◌, true, false, some, [], arith, Bytes, lookup,
  insert, lookup-insert, lookup-insert_self, bytes_eq_iff, length, take, take_of_length-le, ◌&&◌,
}
use dero_ghost_drop.Strings.{trim_space}
use dero_ghost_drop.Relay.Types.{Env, Meta, Server, Request, Faults, uploaded}
use dero_ghost_drop.Relay.Ids.{valid_id}
use dero_ghost_drop.Relay.Disk.{check_token, expired, save_meta, write_at, is_empty}
use dero_ghost_drop.Relay.Files.{take-write_at, length-write_at}
use dero_ghost_drop.Relay.Handlers.{
  put_offset, copy_limit, put_copy, put_at, put_found, handle_put, get_open, serving, Serving,
}
use dero_ghost_drop.Relay.Safety.Sound.{IsSound}

-- No system call fails.
abbrev pub healthy : Faults
healthy = record {
  save_fails = false;
  open_fails = false;
  seek_fails = false;
  copy_fails = false;
  truncate_fails = false;
}

module _ (env : Env) (now : ℕ) (req : Request) (body : Bytes) (s : Server) (m : Meta) (file : Bytes)
    (h : IsSound s) (v : valid_id req.id ≡ true) (e : lookup req.id s.metas ≡ some m)
    (f : lookup req.id s.bins ≡ some file) (t : check_token env req.token m.token_hash ≡ true)
    (x : expired env m now ≡ false) (single : req.content_range ≡ []) (fresh : m.uploaded_bytes ≡ 0)
    (whole : length body ≡ m.size_bytes) (small : m.size_bytes < 2 ^ 63 - 1) where
  done : Meta
  done = record m { uploaded_bytes = 0 + length body }

  state_after : Server
  state_after =
      record (save_meta done (record s { bins = insert req.id (write_at 0 body file) s.bins })) {
        bytes_up = s.bytes_up + length body;
      }

  single_shot : trim_space req.content_range ≡ []
  unfolding trim_space
  single_shot = rw single

  limit_small : copy_limit (m.size_bytes - 0) ≡ m.size_bytes - 0 + 1
  unfolding copy_limit
  limit_small = ground arith

  all_of_body : take (copy_limit (m.size_bytes - 0)) body ≡ body
  all_of_body = rw limit_small (take_of_length-le (m.size_bytes - 0 + 1) body (omega arith))

  bounds : (m.id ≡ req.id) × (length file ≤ m.size_bytes)
  bounds = ground (arith, h.entry req.id)

  -- The old content was no longer than the new, so the file is the body.
  file_is_body : write_at 0 body file ≡ body
  file_is_body =
      sym (
        take_of_length-le (0 + length body) (write_at 0 body file)
          (omega (arith, length-write_at 0 body file (omega arith), bounds)))
      ∙ take-write_at 0 body file (omega arith)

  put_whole :
      handle_put env now healthy req body s ≡ (uploaded req.id (0 + length body) true, state_after)
  unfolding handle_put put_found put_offset put_at put_copy is_empty state_after done
  put_whole = ground (arith, single_shot, h.entry req.id, limit_small, all_of_body)

  stored_meta : lookup req.id state_after.metas ≡ some done
  unfolding state_after save_meta done
  stored_meta = rw (lookup-insert m.id req.id done s.metas, (bytes_eq_iff m.id req.id).1 bounds.0)

  stored_file : lookup req.id state_after.bins ≡ some body
  unfolding state_after save_meta
  stored_file = lookup-insert_self req.id (write_at 0 body file) s.bins ∙ ap some file_is_body

  abbrev served : Request → Serving
  served again = record {
    id = again.id;
    file = body;
    one_time = m.one_time;
    full_read = is_empty (trim_space again.range);
  }

  opened :
      (later : ℕ) (again : Request)
      → again.id ≡ req.id
      → check_token env again.token m.token_hash ≡ true
      → expired env m later ≡ false
      → (m.one_time && m.served_full) ≡ false
      → get_open env later healthy again state_after ≡ (serving (served again), state_after)
  unfolding get_open expired done
  opened later again same token live unserved = ground (
    arith,
    same,
    stored_file,
    stored_meta,
    ap (λ i. lookup i state_after.metas) same,
    ap (λ i. lookup i state_after.bins) same,
    ap valid_id same,
  )

  -- Round trip. In a well-formed state, let a drop be there that has received nothing yet, and let a
  -- single upload with its token, without a Content-Range and before the expiry, bring as many bytes
  -- as were declared, fewer than the largest int64. The upload is acknowledged as complete, and a later download with the token,
  -- still before the expiry and not of a one-time drop that was served, is served these bytes.
  pub download_after_upload :
      (later : ℕ) (again : Request)
      → again.id ≡ req.id
      → check_token env again.token m.token_hash ≡ true
      → expired env m later ≡ false
      → (m.one_time && m.served_full) ≡ false
      → let (r, after) = handle_put env now healthy req body s in
        (r ≡ uploaded req.id (length body) true)
        × (g : Serving) × (get_open env later healthy again after ≡ (serving g, after))
        × (g.file ≡ body)
  unfolding is_empty
  download_after_upload later again same token live unserved = rw put_whole (
    ap (λ n. uploaded req.id n true) (zero-add (length body)),
    served again,
    opened later again same token live unserved,
    refl,
  )
