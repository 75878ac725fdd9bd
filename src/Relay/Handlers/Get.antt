-- ===== src/Relay/Handlers/Get.antt =====
-- handleGet: the part before serving, the part after it, and the two together.
use dero_ghost_drop.Base.{ℕ, ◌+◌, Bool, not, none, some, Bytes, lookup, ◌&&◌, length, if◌then◌else◌}
use dero_ghost_drop.Strings.{trim_space}
use dero_ghost_drop.Relay.Types.{Env, Meta, Server, Request, Faults, Reply, fail, content}
use dero_ghost_drop.Relay.Ids.{valid_id}
use dero_ghost_drop.Relay.Disk.{is_empty, check_token, expired, delete_locked}

-- What a handler that is about to serve keeps while the lock is free: the content of the file that
-- it has opened, as it is at the open, and whether the drop is to go when it has been served.
pub record Serving : Type 0 where
  pub id : Bytes
  pub file : Bytes
  pub one_time : Bool
  pub full_read : Bool

pub data Opened : Type 0 where
  refused : Reply → Opened
  serving : Serving → Opened

unfoldable pub open_found : Env → ℕ → Faults → Request → Meta → Server → Opened × Server
open_found env now io req m s =
    if not (check_token env req.token m.token_hash)
    then (refused (fail 401 "unauthorized"), s)
    else if expired env m now
    then (refused (fail 410 "expired"), delete_locked m s)
    else if m.one_time && m.served_full
    then (refused (fail 404 "not found"), delete_locked m s)
    else if io.open_fails
    then (refused (fail 404 "not found"), s)
    else elim (lookup req.id s.bins) [
      | none ↦ (refused (fail 404 "not found"), s)
      | some file ↦ (
        serving (record {
          id = req.id;
          file = file;
          one_time = m.one_time;
          full_read = is_empty (trim_space req.range);
        }),
        s,
      )
    ]

-- From the lookup to the first Unlock.
unfoldable pub get_open : Env → ℕ → Faults → Request → Server → Opened × Server
unfolding open_found
get_open env now io req s =
    if not (valid_id req.id)
    then (refused (fail 400 "invalid id"), s)
    else elim (lookup req.id s.metas) [
      | none ↦ (refused (fail 404 "not found"), s)
      | some m ↦ open_found env now io req m s
    ]

-- A one-time drop goes after a read without a Range header.
unfoldable pub get_close : Serving → Server → Server
get_close g s =
    if g.one_time && g.full_read
    then elim (lookup g.id s.metas) [
      | none ↦ s
      | some cur ↦ if not cur.served_full then delete_locked cur s else s
    ]
    else s

-- http.ServeContent, with the bytes that it reads counted. `file` is what the open file holds while it
-- is served: its content at the open, unless an upload has written to it since.
unfoldable pub get_serve : Env → Request → Bytes → Server → Reply × Server
get_serve env req file s =
    let body = env.serve_content file req.range in
    (content body, record s { bytes_down = s.bytes_down + length body })

-- The handler with no other request in between.
unfoldable pub handle_get : Env → ℕ → Faults → Request → Server → Reply × Server
unfolding get_open get_close get_serve
handle_get env now io req s =
    let (o, s1) = get_open env now io req s in
    elim o [
      | refused r ↦ (r, s1)
      | serving g ↦ let (r, s2) = get_serve env req g.file s1 in (r, get_close g s2)
    ]
