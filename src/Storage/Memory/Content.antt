-- ===== src/Storage/Memory/Content.antt =====
-- What a Put stores, a Get delivers.
use dero_ghost_drop.Base.{
  ℕ, ◌+◌, ◌≤◌, ◌≡◌, Bool, true, false, Option, some, arith, Bytes, lookup, lookup-insert_self,
  length, drop, take_of_length-le, length-take, ap, ◌∙◌, ◌↔◌, total, total-remove, inl, inr,
  Option-cases,
}
use dero_ghost_drop.Base.Int.{pos, ◌+ℤ◌, ◌-ℤ◌}
use dero_ghost_drop.Storage.Types.{ok, Reader, is_past}
use dero_ghost_drop.Storage.Ids.{validate_id}
use dero_ghost_drop.Storage.Memory.{
  Item, Provider, put, put_sized, put_data, put_locked, read_all, get, exists, stat, old_size,
}
use dero_ghost_drop.Storage.Memory.Sound.{IsSound, blob_size}

-- A Put that reports no error has stored exactly the reader's bytes, as many as announced, and they
-- fit the quota.
pub put_stores :
    (done : Bool) (id : Bytes) (r : Reader) (size : ℕ) (expiry : Option ℕ) (p : Provider)
    → (put done id r (pos size) expiry p).0 ≡ ok tt
    → (length r.bytes ≡ size)
      × (size ≤ p.max_bytes)
      × (lookup id (put done id r (pos size) expiry p).1.items
          ≡ some (record { bytes = r.bytes; expiry = expiry }))
unfolding put put_sized put_data put_locked read_all
put_stores done id r size expiry p h = ground (
  arith,
  length-take (p.max_bytes + 1) r.bytes,
  take_of_length-le (p.max_bytes + 1) r.bytes,
  lookup-insert_self id (record { bytes = r.bytes; expiry = expiry }) p.items,
)

get_stored :
    (id : Bytes) (off now : ℕ) (it : Item) (p : Provider)
    → lookup id p.items ≡ some it
    → is_past it.expiry now ≡ false
    → off ≤ length it.bytes
    → get false id (pos off) now p ≡ (ok (drop off it.bytes), p)
unfolding get
get_stored id off now it p e x le = ground arith

stat_stored :
    (id : Bytes) (now : ℕ) (it : Item) (p : Provider)
    → lookup id p.items ≡ some it
    → is_past it.expiry now ≡ false
    → (stat false id now p ≡ (ok (length it.bytes, it.expiry), p))
      × (exists false id now p ≡ (ok true, p))
unfolding stat exists
stat_stored id now it p e x = ground arith

-- Round trip. If a Put reports no error then, until the expiry has passed, a Get from any offset
-- within the blob delivers the reader's bytes from there on, Stat reports their number and the
-- expiry, Exists says yes, and none of the three changes the provider.
pub get-put :
    (done : Bool) (id : Bytes) (r : Reader) (size off now : ℕ) (expiry : Option ℕ) (p : Provider)
    → (put done id r (pos size) expiry p).0 ≡ ok tt
    → is_past expiry now ≡ false
    → off ≤ size
    → let q = (put done id r (pos size) expiry p).1 in
      (get false id (pos off) now q ≡ (ok (drop off r.bytes), q))
      × (stat false id now q ≡ (ok (size, expiry), q))
      × (exists false id now q ≡ (ok true, q))
get-put done id r size off now expiry p h x le =
    let (fits, cap, stored) = put_stores done id r size expiry p h in
    let it : Item = record { bytes = r.bytes; expiry = expiry } in
    let q = (put done id r (pos size) expiry p).1 in
    let (s, t) = stat_stored id now it q stored x in
    (
      get_stored id off now it q stored x (omega arith),
      s ∙ ap (λ (n : ℕ). (ok (n, expiry), q)) fits,
      t,
    )

old_size-le-total :
    (id : Bytes) (p : Provider) → IsSound p → old_size id p ≤ total blob_size p.items
unfolding old_size
old_size-le-total id p h = elim (Option-cases (lookup id p.items)) [
  | inl e ↦ ground arith
  | inr (it, e) ↦ ground (arith, total-remove blob_size id it p.items h.unique e)
]

-- The quota is exact: for an id that passes, a live context and a reader that does not fail and
-- brings as many bytes as announced, Put succeeds exactly if what is stored, less the blob that it
-- replaces, and the new blob together stay within the quota.
pub put_quota_exact :
    (id : Bytes) (r : Reader) (expiry : Option ℕ) (p : Provider)
    → IsSound p
    → validate_id id ≡ true
    → r.fails ≡ false
    → ((put false id r (pos (length r.bytes)) expiry p).0 ≡ ok tt)
      ↔ (total blob_size p.items + length r.bytes ≤ p.max_bytes + old_size id p)
unfolding put put_sized put_data put_locked read_all ◌-ℤ◌ ◌+ℤ◌
put_quota_exact id r expiry p h v nf =
    let whole = take_of_length-le (p.max_bytes + 1) r.bytes in
    let cut = length-take (p.max_bytes + 1) r.bytes in
    let held = old_size-le-total id p h in
    (λ e. ground (arith, h.accounted), λ le. ground (arith, h.accounted))
