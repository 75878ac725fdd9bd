-- ===== src/Storage/Memory/Race.antt =====
-- Two overlapping Gets of an expired blob.
use dero_ghost_drop.Base.{
  ℕ, ◌<◌, ◌≡◌, ap, true, some, arith, Bytes, remove, length, remove_absent, lookup-remove, total,
  total-remove, bytes_eq_self,
}
use dero_ghost_drop.Base.Int.{ℤ, pos, ◌-ℤ◌}
use dero_ghost_drop.Storage.Types.{is_past}
use dero_ghost_drop.Storage.Memory.{Item, Provider, get_peek, get_finish, drop_item}
use dero_ghost_drop.Storage.Memory.Sound.{IsSound, blob_size}

-- Two Gets that have both read the same expired blob before either takes the write lock delete it
-- once and subtract its size twice: the accounting of a non-empty blob does not survive, `used`
-- being its size too small for what is stored.
pub overlapping_gets_miscount :
    (id : Bytes) (off1 off2 : ℤ) (now : ℕ) (it : Item) (p : Provider)
    → IsSound p
    → get_peek id p ≡ some it
    → is_past it.expiry now ≡ true
    → 0 < length it.bytes
    → let q = (get_finish id off2 now it (get_finish id off1 now it p).1).1 in
      (q.used ≡ pos (total blob_size q.items) -ℤ pos (length it.bytes)) × (¬ IsSound q)
unfolding get_finish get_peek drop_item ◌-ℤ◌
overlapping_gets_miscount id off1 off2 now it p h e x n =
    let sum = total-remove blob_size id it p.items h.unique e in
    let again : remove id (remove id p.items) ≡ remove id p.items =
      remove_absent id (remove id p.items) (rw (lookup-remove id id p.items, bytes_eq_self id)) in
    let again_total = ap (total blob_size) again in
    (ground (arith, h.accounted), λ q. ground (arith, h.accounted, q.accounted))
