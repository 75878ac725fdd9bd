-- ===== src/Relay/Safety/Keeps.antt =====
-- Every handler keeps the state well-formed.
use Prim.Native.Nat.{max}
use dero_ghost_drop.Base.{
  ℕ, ◌+◌, ◌-◌, ◌≤◌, ◌<◌, ◌≡◌, refl, true, false, Option, none, some, List, [], ◌∷◌, map, arith,
  Bytes, lookup, insert, lookup-insert_self, length, take, length-take,
}
use dero_ghost_drop.Base.Int.{pos_part}
use dero_ghost_drop.Relay.Types.{Env, Config, CreateRequest, Meta, Server, Request, Faults}
use dero_ghost_drop.Relay.Disk.{save_meta, write_at}
use dero_ghost_drop.Relay.Cases.{put_copy_cases, handle_put_cases}
use dero_ghost_drop.Relay.Files.{length-write_at}
use dero_ghost_drop.Relay.Ids.{valid_id}
use dero_ghost_drop.Relay.Handlers.{
  Body, unreadable, invalid_json, parsed, new_meta, create_locked, create_sized, handle_create,
  put_offset, write_from, copy_limit, put_copy, handle_put, get_open, Serving, get_close,
  handle_meta, handle_delete, sweep_one, sweep_ids, sweep,
}
use dero_ghost_drop.Relay.Safety.Sound.{
  IsSound, delete_locked-IsSound, IsSound-counters, bins-IsSound, ack-IsSound, add-IsSound,
  undo-IsSound,
}

-- The offset that handlePut takes is the number of acknowledged bytes.
pub put_offset-eq_uploaded :
    (m : Meta) (header : Bytes) {off : ℕ}
    → put_offset m header ≡ write_from off
    → off ≡ m.uploaded_bytes
unfolding put_offset
put_offset-eq_uploaded m header h = ground arith

-- The file and the record after a copy that stays within the declared size.
module _ (id : Bytes) (m : Meta) (file chunk : Bytes) (s : Server) (h : IsSound s)
    (e : lookup id s.metas ≡ some m) (f : lookup id s.bins ≡ some file) where
  abbrev file_after : Bytes
  file_after = write_at m.uploaded_bytes chunk file

  stored : (m.uploaded_bytes ≤ length file) × (length file ≤ m.size_bytes)
  stored = ground (arith, h.entry id)

  length_after : length file_after ≡ max (length file) (m.uploaded_bytes + length chunk)
  length_after = length-write_at m.uploaded_bytes chunk file stored.0

  written-IsSound :
      m.uploaded_bytes + length chunk ≤ m.size_bytes
      → IsSound (record s { bins = insert id file_after s.bins })
  written-IsSound le =
      bins-IsSound id m file_after s h e (omega (arith, stored, length_after))
        (omega (arith, stored, length_after))

  rolled_back-IsSound :
      IsSound (record s { bins = insert id (take m.uploaded_bytes file_after) s.bins })
  rolled_back-IsSound =
      bins-IsSound id m (take m.uploaded_bytes file_after) s h e
        (omega (arith, stored, length_after, length-take m.uploaded_bytes file_after))
        (omega (arith, stored, length_after, length-take m.uploaded_bytes file_after))

  acked-IsSound :
      m.uploaded_bytes + length chunk ≤ m.size_bytes
      → (up : ℕ)
      → IsSound
          (record (save_meta
            (record m { uploaded_bytes = m.uploaded_bytes + length chunk })
            (record s { bins = insert id file_after s.bins })) { bytes_up = up })
  unfolding save_meta
  acked-IsSound le up = IsSound-counters _ up s.bytes_down (
      ack-IsSound id m (m.uploaded_bytes + length chunk) file_after
        (record s { bins = insert id file_after s.bins }) (written-IsSound le) e
        (lookup-insert_self id file_after s.bins) (omega (arith, length_after)))

put_copy-IsSound :
    (io : Faults) (id : Bytes) (m : Meta) (file body : Bytes) (s : Server)
    → IsSound s
    → lookup id s.metas ≡ some m
    → lookup id s.bins ≡ some file
    → m.uploaded_bytes < m.size_bytes
    → io.truncate_fails ≡ false
    → IsSound (put_copy id io m m.uploaded_bytes file body s).1
put_copy-IsSound io id m file body s h e f lt tr =
    let chunk = take (copy_limit (m.size_bytes - m.uploaded_bytes)) body in
    put_copy_cases (λ _. IsSound) id io m m.uploaded_bytes file body s
      (λ _ _ le. written-IsSound id m file chunk s h e f (omega arith))
      (λ _ _. rw tr (rolled_back-IsSound id m file chunk s h e f))
      (λ le. acked-IsSound id m file chunk s h e f (omega arith) (s.bytes_up + length chunk))

module _ (env : Env) where
  create_locked-IsSound :
      (now : ℕ) (token : Option Bytes) (io : Faults) (req : CreateRequest) (size : ℕ) (s : Server)
      → IsSound s
      → valid_id req.id ≡ true
      → 0 < size
      → IsSound (create_locked env now token io req size s).1
  unfolding create_locked save_meta
  create_locked-IsSound now none io req size s h v p = grind arith
  create_locked-IsSound now (some tok) io req size s h v p = grind (
    arith,
    add-IsSound (new_meta env req size tok now) s h v refl p,
    undo-IsSound (new_meta env req size tok now) s h,
  )

  pub handle_create-IsSound :
      (cfg : Config) (now : ℕ) (token : Option Bytes) (io : Faults) (body : Body) (s : Server)
      → IsSound s
      → IsSound (handle_create env cfg now token io body s).1
  unfolding handle_create create_sized
  handle_create-IsSound cfg now token io unreadable s h = h
  handle_create-IsSound cfg now token io invalid_json s h = h
  handle_create-IsSound cfg now token io (parsed req) s h =
      ground (arith, create_locked-IsSound now token io req (pos_part req.size_bytes) s h)

  pub handle_put-IsSound :
      (now : ℕ) (io : Faults) (req : Request) (body : Bytes) (s : Server)
      → IsSound s
      → io.truncate_fails ≡ false
      → IsSound (handle_put env now io req body s).1
  handle_put-IsSound now io req body s h tr =
      handle_put_cases (λ _. IsSound) env now io req body s (λ _ _. h)
        (λ m _ _. delete_locked-IsSound m s h)
        (λ m off file e o f lt. rw (put_offset-eq_uploaded m req.content_range o) (
          put_copy-IsSound io req.id m file body s h e f
            (rw (put_offset-eq_uploaded m req.content_range o) at lt) tr))

  pub get_open-IsSound :
      (now : ℕ) (io : Faults) (req : Request) (s : Server)
      → IsSound s
      → IsSound (get_open env now io req s).1
  unfolding get_open
  get_open-IsSound now io req s h = grind (arith, delete_locked-IsSound)

  pub get_close-IsSound : (g : Serving) (s : Server) → IsSound s → IsSound (get_close g s)
  unfolding get_close
  get_close-IsSound g s h = grind (arith, delete_locked-IsSound)

  pub handle_meta-IsSound :
      (now : ℕ) (req : Request) (s : Server) → IsSound s → IsSound (handle_meta env now req s).1
  unfolding handle_meta
  handle_meta-IsSound now req s h = grind (arith, delete_locked-IsSound)

  pub handle_delete-IsSound :
      (req : Request) (s : Server) → IsSound s → IsSound (handle_delete env req s).1
  unfolding handle_delete
  handle_delete-IsSound req s h = grind (arith, delete_locked-IsSound)

  pub sweep_one-IsSound :
      (now : ℕ) (id : Bytes) (s : Server) → IsSound s → IsSound (sweep_one env now id s).0
  unfolding sweep_one
  sweep_one-IsSound now id s h = grind (arith, delete_locked-IsSound)

  sweep_ids-IsSound :
      (now : ℕ) (ids : List Bytes) (s : Server) → IsSound s → IsSound (sweep_ids env now ids s).0
  unfolding sweep_ids
  sweep_ids-IsSound now [] s h = h
  sweep_ids-IsSound now (id ∷ ids) s h =
      sweep_ids-IsSound now ids (sweep_one env now id s).0 (sweep_one-IsSound now id s h)

  pub sweep-IsSound : (now : ℕ) (s : Server) → IsSound s → IsSound (sweep env now s).0
  unfolding sweep
  sweep-IsSound now s h = sweep_ids-IsSound now (map (λ e. e.0) s.metas) s h
