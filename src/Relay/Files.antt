-- ===== src/Relay/Files.antt =====
-- What a seek and a write make of a file.
use Prim.Native.Nat.{max}
use mathlib.Core.List.{append_assoc}
use native.Mathlib.Nat.{add-zero}
use dero_ghost_drop.Base.{
  ℕ, zero, suc, ◌+◌, ◌-◌, ◌≤◌, ◌≡◌, refl, sym, [], ◌∷◌, ◌++◌, arith, Bytes, length, take, drop,
  length-append, length-take, length-drop, take-append-drop, take-append_length,
}
use dero_ghost_drop.Relay.Disk.{zeros, write_at}

no_gap : (n : ℕ) → n ≡ 0 → zeros n ≡ []
unfolding zeros
no_gap zero e = refl
no_gap (suc n) e = absurd (omega arith)

-- Inside the file, or at its end, no gap is filled.
write_at_inside :
    (off : ℕ) (bytes file : Bytes)
    → off ≤ length file
    → write_at off bytes file ≡ take off file ++ (bytes ++ drop (off + length bytes) file)
unfolding write_at
write_at_inside off [] file h = rw add-zero (sym (take-append-drop off file))
write_at_inside off (c ∷ cs) file h = rw (no_gap (off - length file) (omega arith))

pub length-write_at :
    (off : ℕ) (bytes file : Bytes)
    → off ≤ length file
    → length (write_at off bytes file) ≡ max (length file) (off + length bytes)
length-write_at off bytes file h = rw (write_at_inside off bytes file h) (
    omega (
      arith,
      length-append (take off file) (bytes ++ drop (off + length bytes) file),
      length-append bytes (drop (off + length bytes) file),
      length-take off file,
      length-drop (off + length bytes) file,
    ))

-- What stood before the offset, and then what was written.
pub take-write_at :
    (off : ℕ) (bytes file : Bytes)
    → off ≤ length file
    → take (off + length bytes) (write_at off bytes file) ≡ take off file ++ bytes
take-write_at off bytes file h =
    rw
      (
        write_at_inside off bytes file h,
        ← append_assoc (take off file) bytes (drop (off + length bytes) file),
      )
      (take-append_length (off + length bytes) (take off file ++ bytes)
        (drop (off + length bytes) file)
        (omega (arith, length-append (take off file) bytes, length-take off file)))

-- A write leaves what stands before it.
pub take-write_at_before :
    (off : ℕ) (bytes file : Bytes)
    → off ≤ length file
    → take off (write_at off bytes file) ≡ take off file
take-write_at_before off bytes file h = rw (write_at_inside off bytes file h) (
    take-append_length off (take off file) (bytes ++ drop (off + length bytes) file)
      (omega (arith, length-take off file)))
