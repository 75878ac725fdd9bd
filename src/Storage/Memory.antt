-- ===== src/Storage/Memory.antt =====
-- internal/storage/memory.go: the provider that keeps its blobs in memory. A method that holds the
-- mutex is one step; Get takes it twice, so its two parts are steps of their own.
pub mod Sound
pub mod Runs
pub mod Content
pub mod Race
pub mod Lawful
use dero_ghost_drop.Base.{
  ℕ, ◌+◌, Bool, true, false, not, Option, none, some, [], Bytes, Map, lookup, insert, remove, ◌==◌,
  ltb, leb, ◌&&◌, ◌||◌, length, take, drop, if◌then◌else◌,
}
use dero_ghost_drop.Base.Int.{ℤ, pos, negsuc, ltb_ℤ, ◌+ℤ◌, ◌-ℤ◌}
use dero_ghost_drop.Storage.Types.{
  Error, bad_id, cancelled, negative_size, quota, short_read, read_failed, not_found, expired,
  out_of_range, Result, ok, err, Reader, is_past,
}
use dero_ghost_drop.Storage.Ids.{validate_id}

-- memItem
pub record Item : Type 0 where
  pub bytes : Bytes
  pub expiry : Option ℕ

-- `used` is signed in the source and may go below zero, so it is an integer.
pub record Provider : Type 0 where
  pub items : Map Item
  pub used : ℤ
  pub max_bytes : ℕ

abbrev pub default_quota_bytes : ℕ
default_quota_bytes = 1073741824

-- NewMemoryProvider
unfoldable pub new_provider : ℤ → Provider
new_provider (pos n) = record {
  items = [];
  used = pos 0;
  max_bytes = if n == 0 then default_quota_bytes else n;
}
new_provider (negsuc n) = record { items = []; used = pos 0; max_bytes = default_quota_bytes }

-- The length of the item that a Put replaces.
unfoldable pub old_size : Bytes → Provider → ℕ
old_size id p = elim (lookup id p.items) [ none ↦ 0 | some it ↦ length it.bytes ]

-- The locked part of Put.
unfoldable pub put_locked : Bytes → Bytes → Option ℕ → Provider → Result (Unit {0}) × Provider
unfolding old_size
put_locked id blob expiry p =
    let used' = p.used -ℤ pos (old_size id p) +ℤ pos (length blob) in
    if ltb_ℤ (pos p.max_bytes) used' then (err quota, p) else (
      ok tt,
      record p {
        items = insert id (record { bytes = blob; expiry = expiry }) p.items;
        used = used';
      },
    )

-- What io.ReadAll makes of the reader behind io.LimitReader(r, maxBytes+1): an error behind the
-- limit is not seen.
unfoldable pub read_all : Reader → ℕ → Option Bytes
read_all r limit = if r.fails && ltb (length r.bytes) limit then none else some (take limit r.bytes)

-- Behind the read.
unfoldable pub put_data : Bytes → ℕ → Option ℕ → Bytes → Provider → Result (Unit {0}) × Provider
put_data id size expiry blob p =
    if ltb p.max_bytes (length blob)
    then (err quota, p)
    else if not (length blob == size)
    then (err short_read, p)
    else put_locked id blob expiry p

-- Behind the checks of the id and of the context.
unfoldable pub put_sized : Bytes → Reader → ℤ → Option ℕ → Provider → Result (Unit {0}) × Provider
put_sized id r (negsuc n) expiry p = (err negative_size, p)
put_sized id r (pos size) expiry p = elim (read_all r (p.max_bytes + 1)) [
  | none ↦ (err read_failed, p)
  | some blob ↦ put_data id size expiry blob p
]

-- Put; `done` is ctx.Err() != nil
unfoldable pub put : Bool → Bytes → Reader → ℤ → Option ℕ → Provider → Result (Unit {0}) × Provider
put done id r size expiry p =
    if not (validate_id id)
    then (err bad_id, p)
    else if done
    then (err cancelled, p)
    else put_sized id r size expiry p

-- What every method does with an item that it finds past its expiry, under the write lock.
unfoldable pub drop_item : Bytes → Item → Provider → Provider
drop_item id it p = record p { items = remove id p.items; used = p.used -ℤ pos (length it.bytes) }

-- Get up to RUnlock: the item, if there is one.
unfoldable pub get_peek : Bytes → Provider → Option Item
get_peek id p = lookup id p.items

-- Get behind the peek. The reader returned delivers the bytes from the offset on.
unfoldable pub get_finish : Bytes → ℤ → ℕ → Item → Provider → Result Bytes × Provider
get_finish id offset now it p =
    if is_past it.expiry now then (err expired, drop_item id it p) else elim offset [
      | negsuc n ↦ (err out_of_range, p)
      | pos off ↦
          if ltb (length it.bytes) off then (err out_of_range, p) else (ok (drop off it.bytes), p)
    ]

-- Get with no other call in between
unfoldable pub get : Bool → Bytes → ℤ → ℕ → Provider → Result Bytes × Provider
unfolding get_peek get_finish
get done id offset now p = if done then (err cancelled, p) else elim (get_peek id p) [
  | none ↦ (err not_found, p)
  | some it ↦ get_finish id offset now it p
]

unfoldable pub delete : Bool → Bytes → Provider → Result (Unit {0}) × Provider
delete done id p =
    if done
    then (err cancelled, p)
    else elim (lookup id p.items) [ none ↦ (ok tt, p) | some it ↦ (ok tt, drop_item id it p) ]

unfoldable pub exists : Bool → Bytes → ℕ → Provider → Result Bool × Provider
exists done id now p = if done then (err cancelled, p) else elim (lookup id p.items) [
  | none ↦ (ok false, p)
  | some it ↦ if is_past it.expiry now then (ok false, drop_item id it p) else (ok true, p)
]

unfoldable pub stat : Bool → Bytes → ℕ → Provider → Result (ℕ × Option ℕ) × Provider
stat done id now p = if done then (err cancelled, p) else elim (lookup id p.items) [
  | none ↦ (err not_found, p)
  | some it ↦
      if is_past it.expiry now
      then (err expired, drop_item id it p)
      else (ok (length it.bytes, it.expiry), p)
]

-- Health
unfoldable pub health : Bool → ℕ → Provider → Result (Unit {0}) × Provider
health done now p = if done then (err cancelled, p) else (ok tt, p)
