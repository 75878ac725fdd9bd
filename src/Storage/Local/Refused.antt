-- ===== src/Storage/Local/Refused.antt =====
-- A Put of internal/storage/local.go that fails at its last step.
use mathlib.Core.Path.{subst}
use dero_ghost_drop.Base.{
  ℕ, [], ◌-◌, ◌++◌, ltb, length, take, drop, if◌then◌else◌, zero, suc, ◌≡◌, ◌≢◌, refl, sym, true,
  false, Option, none, arith, Bytes, lookup, insert, lookup-insert, lookup-remove, bytes_eq_iff,
}
use dero_ghost_drop.Base.Int.{ℤ, pos, negsuc}
use dero_ghost_drop.Storage.Types.{Result, ok, err, io_error, Reader}
use dero_ghost_drop.Storage.Local.{
  Local, Faults, copy_piece, copy_loop, put_renamed, put_copied, put_sized, put,
}
use dero_ghost_drop.Storage.Local.Sound.{view}

-- The same call, with a second rename that fails.
abbrev no_rename : Faults → Faults
no_rename f = record f { rename_meta_fails = true }

-- The blob is gone and its record is still there; no other blob has changed.
abbrev Lost : Bytes → Local → Result (Unit {0}) × Local → Type 0
Lost id p x =
    (x.0 ≡ err io_error)
    × (view x.1 id ≡ none)
    × (lookup id x.1.metas ≡ lookup id p.metas)
    × ((j : Bytes) → id ≢ j → view x.1 j ≡ view p j)

copy_loop-no_rename :
    (fuel : ℕ) (f : Faults) (i : ℕ) (src out : Bytes) (size : ℕ)
    → copy_loop fuel (no_rename f) i src out size ≡ copy_loop fuel f i src out size
unfolding copy_loop
copy_loop-no_rename zero f i src out size = refl
copy_loop-no_rename (suc fuel) f i src out size =
    let want = if ltb (size - length out) copy_piece then size - length out else copy_piece in
    rw (copy_loop-no_rename fuel f (suc i) (drop want src) (out ++ take want src) size) refl

renamed_loses :
    (f : Faults) (id out : Bytes) (size : ℕ) (expiry : Option ℕ) (p : Local)
    → p.bin_stays ≡ false
    → (put_renamed f id out size expiry p).0 ≡ ok tt
    → Lost id p (put_renamed (no_rename f) id out size expiry p)
unfolding put_renamed
renamed_loses f id out size expiry p b h = (
  ground arith,
  ground (arith, lookup-remove id id (insert id out p.bins), bytes_eq_iff id id),
  ground arith,
  λ j n. ground (
    arith,
    lookup-remove id j (insert id out p.bins),
    lookup-insert id j out p.bins,
    bytes_eq_iff id j,
  ),
)

copied_loses :
    (f : Faults) (id : Bytes) (size : ℕ) (expiry : Option ℕ) (p : Local) (c : Result Bytes)
    → p.bin_stays ≡ false
    → (put_copied f id size expiry p c).0 ≡ ok tt
    → Lost id p (put_copied (no_rename f) id size expiry p c)
unfolding put_copied
copied_loses f id size expiry p (err e) b h = absurd (ground arith)
copied_loses f id size expiry p (ok out) b h = renamed_loses f id out size expiry p b h

negative_refused :
    (f : Faults) (id : Bytes) (r : Reader) (n : ℕ) (expiry : Option ℕ) (p : Local)
    → ¬ ((put f id r (negsuc n) expiry p).0 ≡ ok tt)
unfolding put put_sized
negative_refused f id r n expiry p h = ground arith

-- A Put that succeeds has passed every check before the renames, whatever the second one does.
reaches_copied :
    (f : Faults) (id : Bytes) (r : Reader) (size : ℕ) (expiry : Option ℕ) (p : Local)
    → (put f id r (pos size) expiry p).0 ≡ ok tt
    → let c = copy_loop (suc size) f 1 r.bytes [] size in
      ((put_copied f id size expiry p c).0 ≡ ok tt)
      × (put (no_rename f) id r (pos size) expiry p ≡ put_copied (no_rename f) id size expiry p c)
unfolding put put_sized
reaches_copied f id r size expiry p h =
    ground (arith, copy_loop-no_rename (suc size) f 1 r.bytes [] size)

-- Where payloads can be removed, take any Put that succeeds, and let the rename of its record fail
-- instead. It reports an input or output error, the payload that was renamed just before is removed,
-- so that no blob is left under the id, an earlier one included, and the record that the id had
-- stays; the other blobs are as before.
pub failed_rename_loses :
    (f : Faults) (id : Bytes) (r : Reader) (size : ℤ) (expiry : Option ℕ) (p : Local)
    → p.bin_stays ≡ false
    → (put f id r size expiry p).0 ≡ ok tt
    → let (a, q) = put (record f { rename_meta_fails = true }) id r size expiry p in
      (a ≡ err io_error)
      × (view q id ≡ none)
      × (lookup id q.metas ≡ lookup id p.metas)
      × ((j : Bytes) → id ≢ j → view q j ≡ view p j)
failed_rename_loses f id r (negsuc n) expiry p b h = absurd (negative_refused f id r n expiry p h)
failed_rename_loses f id r (pos size) expiry p b h =
    let (done, e) = reaches_copied f id r size expiry p h in
    subst (Lost id p) (sym e)
      (copied_loses f id size expiry p (copy_loop (suc size) f 1 r.bytes [] size) b done)
