-- ===== src/Storage/Memory/Sound.antt =====
-- The accounting of the memory provider: `used` is the sum of the blobs, and within the quota.
use dero_ghost_drop.Base.{
  ℕ, ◌+◌, ◌≤◌, ◌≡◌, Bool, Option, some, arith, Bytes, lookup, insert, Unique, insert-Unique,
  remove-Unique, total, total-remove, total-insert_new, total-insert_old, length, inl, inr,
  Option-cases,
}
use dero_ghost_drop.Base.Int.{ℤ, pos, negsuc, ◌+ℤ◌, ◌-ℤ◌}
use dero_ghost_drop.Storage.Types.{Reader}
use dero_ghost_drop.Storage.Memory.{
  Item, Provider, put_locked, put_data, put_sized, put, drop_item, get, delete, exists, stat,
  old_size,
}

abbrev pub blob_size : Item → ℕ
blob_size it = length it.bytes

pub record IsSound (p : Provider) : Type 0 where
  pub unique : Unique p.items
  pub accounted : p.used ≡ pos (total blob_size p.items)
  pub within : total blob_size p.items ≤ p.max_bytes

pub drop_item-IsSound :
    (id : Bytes) (it : Item) (p : Provider)
    → IsSound p
    → lookup id p.items ≡ some it
    → IsSound (drop_item id it p)
unfolding drop_item ◌-ℤ◌
drop_item-IsSound id it p h e = record {
  unique = remove-Unique id p.items h.unique;
  accounted = ground (arith, h.accounted, total-remove blob_size id it p.items h.unique e);
  within = ground (arith, h.within, total-remove blob_size id it p.items h.unique e);
}

stored_total :
    (id : Bytes) (it : Item) (p : Provider)
    → total blob_size (insert id it p.items) + old_size id p
      ≡ total blob_size p.items + length it.bytes
unfolding old_size
stored_total id it p = elim (Option-cases (lookup id p.items)) [
  | inl e ↦ ground (arith, total-insert_new blob_size id it p.items e)
  | inr (old, e) ↦ ground (arith, total-insert_old blob_size id it old p.items e)
]

pub put_locked-IsSound :
    (id blob : Bytes) (expiry : Option ℕ) (p : Provider)
    → IsSound p
    → IsSound (put_locked id blob expiry p).1
unfolding put_locked ◌-ℤ◌ ◌+ℤ◌
put_locked-IsSound id blob expiry p h =
    let it : Item = record { bytes = blob; expiry = expiry } in
    record {
      unique = ground (arith, h.unique, insert-Unique id it p.items h.unique);
      accounted = ground (arith, h.accounted, stored_total id it p);
      within = ground (arith, h.within, h.accounted, stored_total id it p);
    }

put_data-IsSound :
    (id : Bytes) (size : ℕ) (expiry : Option ℕ) (blob : Bytes) (p : Provider)
    → IsSound p
    → IsSound (put_data id size expiry blob p).1
unfolding put_data
put_data-IsSound id size expiry blob p h = grind (arith, put_locked-IsSound)

put_sized-IsSound :
    (id : Bytes) (r : Reader) (size : ℤ) (expiry : Option ℕ) (p : Provider)
    → IsSound p
    → IsSound (put_sized id r size expiry p).1
unfolding put_sized
put_sized-IsSound id r (negsuc n) expiry p h = h
put_sized-IsSound id r (pos size) expiry p h = grind (arith, put_data-IsSound)

pub put-IsSound :
    (done : Bool) (id : Bytes) (r : Reader) (size : ℤ) (expiry : Option ℕ) (p : Provider)
    → IsSound p
    → IsSound (put done id r size expiry p).1
unfolding put
put-IsSound done id r size expiry p h = grind (arith, put_sized-IsSound)

pub get-IsSound :
    (done : Bool) (id : Bytes) (offset : ℤ) (now : ℕ) (p : Provider)
    → IsSound p
    → IsSound (get done id offset now p).1
unfolding get
get-IsSound done id offset now p h = grind (arith, drop_item-IsSound)

pub delete-IsSound :
    (done : Bool) (id : Bytes) (p : Provider) → IsSound p → IsSound (delete done id p).1
unfolding delete
delete-IsSound done id p h = grind (arith, drop_item-IsSound)

pub exists-IsSound :
    (done : Bool) (id : Bytes) (now : ℕ) (p : Provider)
    → IsSound p
    → IsSound (exists done id now p).1
unfolding exists
exists-IsSound done id now p h = grind (arith, drop_item-IsSound)

pub stat-IsSound :
    (done : Bool) (id : Bytes) (now : ℕ) (p : Provider) → IsSound p → IsSound (stat done id now p).1
unfolding stat
stat-IsSound done id now p h = grind (arith, drop_item-IsSound)
