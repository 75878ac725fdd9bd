-- ===== src/Storage/Client.antt =====
-- internal/storage/relay.go: the provider that speaks to a relay over HTTP.
pub mod Ends
pub mod Chunks
pub mod Resume
use dero_ghost_drop.Base.{
  ℕ, zero, suc, ◌+◌, ◌-◌, Bool, true, false, not, ◌||◌, ◌&&◌, Option, none, some, List, [], ◌∷◌,
  Bytes, codes, ltb, ◌==◌, length, take, drop, if◌then◌else◌,
}
use dero_ghost_drop.Base.Int.{ℤ, pos, negsuc}
use dero_ghost_drop.Storage.Types.{
  Error, bad_id, cancelled, negative_size, quota, short_read, not_found, expired, out_of_range,
  io_error, unfinished, Result, ok, err, Reader, is_past,
}
use dero_ghost_drop.Storage.Ids.{validate_id}
use dero_ghost_drop.Storage.Wire.{
  Call, create_drop, get_meta, put_all, put_range, get_data, delete_drop, get_health, Response,
  Fields, Net, RelayMeta, meta_expiry, parse_meta, answered, is_created, is_stored, is_fetched,
  is_put, is_deleted, is_ok, told, body_of, meta_of,
}

-- The length of the next chunk.
abbrev pub want : ℕ → ℕ → ℕ
want off size = if ltb (size - off) 1048576 then size - off else 1048576

module _ (net : Net) (token : Bytes) where
  -- create
  unfoldable pub create : Bytes → ℕ → Option ℕ → net.World → Result (Unit {0}) × net.World
  create id size expiry w =
      let a = net.send token (create_drop id size expiry) w in (told (answered is_created a.0), a.1)

  -- stat
  unfoldable pub stat_meta : Bytes → net.World → Result RelayMeta × net.World
  stat_meta id w = let a = net.send token (get_meta id) w in (meta_of net (answered is_ok a.0), a.1)

  unfoldable pub offset_of : ℤ → ℕ
  offset_of (pos n) = n
  offset_of (negsuc n) = 0

  unfoldable pub size_of : Result RelayMeta → ℕ
  size_of (err e) = 0
  size_of (ok m) = offset_of m.size

  -- uploaded, and the offset that Put makes of it
  unfoldable pub uploaded : Bytes → net.World → ℕ × net.World
  uploaded id w = let a = stat_meta id w in (size_of a.0, a.1)

  -- The attempts to send a chunk: `for range 3`.
  unfoldable pub send_chunk :
      ℕ → Error → Bytes → Bytes → ℕ → ℕ → net.World → Result (Unit {0}) × net.World
  send_chunk zero last id chunk off size w = (err last, w)
  send_chunk (suc more) last id chunk off size w =
      let a = net.send token (put_range id chunk off (off + length chunk - 1) size) w in
      elim (answered is_stored a.0) [
        | ok r ↦ (ok tt, a.1)
        | err e ↦ send_chunk more e id chunk off size a.1
      ]

  -- The chunk that a round sends.
  abbrev pub sent : Bytes → Bytes → ℕ → ℕ → net.World → Result (Unit {0}) × net.World
  sent id src off size w = send_chunk 3 io_error id (take (want off size) src) off size w

  -- The loop of Put from the offset `off` on; `done i` is ctx.Err() before the i-th chunk, and `src`
  -- what the reader has left.
  unfoldable pub put_loop :
      ℕ → (ℕ → Bool) → ℕ → Bytes → Bytes → ℕ → ℕ → net.World → Result (Unit {0}) × net.World
  put_loop zero done i id src off size w = (err unfinished, w)
  put_loop (suc fuel) done i id src off size w =
      let a = sent id src off size w in
      let n = want off size in
      let rest = put_loop fuel done (suc i) id (drop n src) (off + n) size a.1 in
      if not (ltb off size)
      then (ok tt, w)
      else if done i
      then (err cancelled, w)
      else if ltb (length src) n
      then (err short_read, w)
      else elim a.0 [ err e ↦ (err e, a.1) | ok u ↦ rest ]

  -- Put behind the offset: io.CopyN, the empty payload, the loop.
  unfoldable pub put_from :
      (ℕ → Bool) → Bytes → Bytes → ℕ → ℕ → net.World → Result (Unit {0}) × net.World
  put_from done id src off size w =
      let a = net.send token (put_all id) w in
      if ltb size off
      then (err out_of_range, w)
      else if ltb (length src) off
      then (err short_read, w)
      else if size == 0
      then (told (answered is_put a.0), a.1)
      else put_loop (suc size) done 1 id (drop off src) off size w

  unfoldable pub put_created :
      (ℕ → Bool) → Bytes → Bytes → ℕ → Result (Unit {0}) × net.World → Result (Unit {0}) × net.World
  put_created done id src size (err e, w) = (err e, w)
  put_created done id src size (ok u, w) =
      let a = uploaded id w in put_from done id src a.0 size a.1

  unfoldable pub put_sized :
      (ℕ → Bool) → Bytes → Reader → ℤ → Option ℕ → net.World → Result (Unit {0}) × net.World
  put_sized done id r (negsuc n) expiry w = (err negative_size, w)
  put_sized done id r (pos size) expiry w =
      put_created done id r.bytes size (create id size expiry w)

  -- Put
  unfoldable pub put :
      (ℕ → Bool) → Bytes → Reader → ℤ → Option ℕ → net.World → Result (Unit {0}) × net.World
  put done id r size expiry w =
      if not (validate_id id)
      then (err bad_id, w)
      else if done 0
      then (err cancelled, w)
      else put_sized done id r size expiry w

  unfoldable pub get_sized : Bytes → ℤ → net.World → Result Bytes × net.World
  get_sized id (negsuc n) w = (err out_of_range, w)
  get_sized id (pos off) w =
      let a = net.send token (get_data id off) w in (body_of (answered is_fetched a.0), a.1)

  -- Get, with the bytes that the body delivers; the Range header is set for an offset above 0
  unfoldable pub get : Bytes → ℤ → net.World → Result Bytes × net.World
  get id offset w = if validate_id id then get_sized id offset w else (err bad_id, w)

  -- Delete
  unfoldable pub delete : Bytes → net.World → Result (Unit {0}) × net.World
  delete id w =
      let a = net.send token (delete_drop id) w in
      if validate_id id then (told (answered is_deleted a.0), a.1) else (err bad_id, w)

  unfoldable pub present : ℕ → Result RelayMeta → Result Bool
  present now (ok m) = ok (not (is_past m.expiry now))
  present now (err not_found) = ok false
  present now (err expired) = ok false
  present now (err e) = err e

  -- Exists
  unfoldable pub exists : Bytes → ℕ → net.World → Result Bool × net.World
  exists id now w =
      let a = stat_meta id w in if validate_id id then (present now a.0, a.1) else (err bad_id, w)

  unfoldable pub reported : ℕ → Result RelayMeta → Result (ℤ × Option ℕ)
  reported now (err e) = err e
  reported now (ok m) = if is_past m.expiry now then err expired else ok (m.size, m.expiry)

  -- Stat
  unfoldable pub stat : Bytes → ℕ → net.World → Result (ℤ × Option ℕ) × net.World
  stat id now w =
      let a = stat_meta id w in if validate_id id then (reported now a.0, a.1) else (err bad_id, w)

  -- Health
  unfoldable pub health : net.World → Result (Unit {0}) × net.World
  health w = let a = net.send token get_health w in (told (answered is_ok a.0), a.1)
