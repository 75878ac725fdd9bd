-- ===== src/Storage/Local/Copy.antt =====
-- The copy loop of Put: it takes exactly the announced bytes, or fails.
use dero_ghost_drop.Base.{
  ℕ, zero, suc, ◌+◌, ◌-◌, ◌≤◌, ◌<◌, ◌≡◌, ◌≢◌, ◌∙◌, ◌⊎◌, inl, inr, sym, ap, [], ◌++◌, arith, Bytes,
  ltb, length, take, drop, take-add, length-take, length-drop, length-append, if◌then◌else◌,
}
use mathlib.Core.List.{append_assoc, append-nil}
use dero_ghost_drop.Storage.Types.{unfinished, ok, err}
use dero_ghost_drop.Storage.Local.{Faults, copy_loop, copy_piece}

copy_piece_pos : 0 < copy_piece
unfolding copy_piece
copy_piece_pos = omega arith

-- The next piece: all that is missing, at most one buffer.
abbrev want : ℕ → Bytes → ℕ
want size out = if ltb (size - length out) copy_piece then size - length out else copy_piece

want_bounds :
    (size : ℕ) (out : Bytes)
    → length out < size
    → (0 < want size out) × (want size out ≤ size - length out)
want_bounds size out h = ground (arith, copy_piece_pos)

-- A round that does not fail has read a whole piece.
copy_step :
    (fuel : ℕ) (f : Faults) (i : ℕ) (src out : Bytes) (size : ℕ) {b : Bytes}
    → length out < size
    → copy_loop (suc fuel) f i src out size ≡ ok b
    → (length (take (want size out) src) ≡ want size out)
      × (copy_loop fuel f (suc i) (drop (want size out) src) (out ++ take (want size out) src) size
          ≡ ok b)
unfolding copy_loop
copy_step fuel f i src out size l h = ground (arith, length-take (want size out) src)

copy_stop :
    (fuel : ℕ) (f : Faults) (i : ℕ) (src out : Bytes) (size : ℕ)
    → size ≤ length out
    → copy_loop (suc fuel) f i src out size ≡ ok out
unfolding copy_loop
copy_stop fuel f i src out size h = ground arith

pub copy_exact :
    (fuel : ℕ) (f : Faults) (i : ℕ) (src out : Bytes) (size : ℕ) {b : Bytes}
    → length out ≤ size
    → copy_loop fuel f i src out size ≡ ok b
    → (b ≡ out ++ take (size - length out) src) × (size - length out ≤ length src)
unfolding copy_loop
copy_exact zero f i src out size l h = ground arith
copy_exact (suc fuel) f i src out size {b} l h = elim (cases (length out) size) [
  | inl done ↦
      let none_left : 0 ≡ size - length out = omega arith in
      (
        ok_inj (sym h ∙ copy_stop fuel f i src out size done)
            ∙ (sym (append-nil out) ∙ ap (λ n. out ++ take n src) none_left),
        omega arith,
      )
  | inr more ↦
      let w = want size out in
      let (whole, next) = copy_step fuel f i src out size more h in
      let (lo, hi) = want_bounds size out more in
      let left : w + (size - length (out ++ take w src)) ≡ size - length out =
        omega (arith, length-append out (take w src)) in
      let (e, k) =
        copy_exact fuel f (suc i) (drop w src) (out ++ take w src) size
          (omega (arith, length-append out (take w src))) next in
      (
        e
            ∙ (append_assoc out (take w src) (take (size - length (out ++ take w src)) (drop w src))
                ∙ ap (λ t. out ++ t)
                    (sym (take-add w (size - length (out ++ take w src)) src)
                      ∙ ap (λ n. take n src) left)),
        omega (arith, length-append out (take w src), length-drop w src, length-take w src),
      )
]
  where
    cases : (a b : ℕ) → (b ≤ a) ⊎ (a < b)
    cases a b = omega arith

    ok_inj : {x y : Bytes} → ok x ≡ ok y → x ≡ y
    ok_inj p = cc

-- The loop is given one round more than there are bytes to copy, and every round copies one at least:
-- it never runs out of rounds.
pub copy_ends :
    (fuel : ℕ) (f : Faults) (i : ℕ) (src out : Bytes) (size : ℕ)
    → length out ≤ size
    → size < length out + fuel
    → copy_loop fuel f i src out size ≢ err unfinished
unfolding copy_loop
copy_ends zero f i src out size k l = absurd (omega arith)
copy_ends (suc fuel) f i src out size k l =
    let w = want size out in
    ground (
      arith,
      copy_piece_pos,
      length-append out (take w src),
      length-take w src,
      copy_ends fuel f (suc i) (drop w src) (out ++ take w src) size,
    )

pub copied :
    (f : Faults) (src : Bytes) (size : ℕ) {b : Bytes}
    → copy_loop (suc size) f 1 src [] size ≡ ok b
    → (b ≡ take size src) × (size ≤ length src)
copied f src size h =
    let all : size - 0 ≡ size = omega arith in
    let (e, k) = copy_exact (suc size) f 1 src [] size (omega arith) h in
    (e ∙ ap (λ n. take n src) all, omega (arith, k))

pub copied_length :
    (f : Faults) (src : Bytes) (size : ℕ) {b : Bytes}
    → copy_loop (suc size) f 1 src [] size ≡ ok b
    → length b ≡ size
copied_length f src size h =
    let (e, k) = copied f src size h in omega (arith, ap length e, length-take size src)
