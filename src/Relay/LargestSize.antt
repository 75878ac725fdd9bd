-- ===== src/Relay/LargestSize.antt =====
-- An upload to a drop whose declared size is the largest int64.
use dero_ghost_drop.Base.{
  ℕ, ◌-◌, ◌^◌, ◌≡◌, refl, true, false, some, [], arith, Bytes, lookup, lookup-insert_self,
}
use dero_ghost_drop.Strings.{trim_space}
use dero_ghost_drop.Relay.Types.{Env, Meta, Server, Request, uploaded}
use dero_ghost_drop.Relay.Ids.{valid_id}
use dero_ghost_drop.Relay.Disk.{check_token, expired, save_meta, write_at, is_empty}
use dero_ghost_drop.Relay.Download.{healthy}
use dero_ghost_drop.Relay.Handlers.{copy_limit, put_offset, put_copy, put_at, put_found, handle_put}

blank : (h : Bytes) → h ≡ [] → trim_space h ≡ []
unfolding trim_space
blank h e = rw e refl

-- For a drop declared with the largest int64 as its size the limit of the copy wraps to a negative
-- number: where nothing has been received yet, an upload with the right token before the expiry and
-- without a Content-Range is acknowledged with 0 bytes, and the payload file is as it was, whatever
-- the body.
pub largest_size_stores_nothing :
    (env : Env) (now : ℕ) (req : Request) (body : Bytes) (s : Server) {m : Meta} {file : Bytes}
    → valid_id req.id ≡ true
    → lookup req.id s.metas ≡ some m
    → lookup req.id s.bins ≡ some file
    → check_token env req.token m.token_hash ≡ true
    → expired env m now ≡ false
    → req.content_range ≡ []
    → m.uploaded_bytes ≡ 0
    → m.size_bytes ≡ 2 ^ 63 - 1
    → let (r, t) = handle_put env now healthy req body s in
      (r ≡ uploaded req.id 0 false) × (lookup req.id t.bins ≡ some file)
unfolding handle_put put_found put_offset put_at put_copy copy_limit is_empty save_meta write_at
largest_size_stores_nothing env now req body s {m} {file} v e f t x c u z =
    (ground (arith, single), ground (arith, single, lookup-insert_self req.id file s.bins))
  where
    single : trim_space req.content_range ≡ []
    single = blank req.content_range c
