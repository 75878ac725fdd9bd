-- ===== src/Strings.antt =====
-- The pieces of Go's packages strings and strconv that the program calls, on byte strings.
mod Trim
mod Decimal
mod Hex
unfoldable pub use Trim.*
unfoldable pub use Decimal.*
unfoldable pub use Hex.*
use dero_ghost_drop.Base.{
  ℕ, ◌≡◌, ◌≢◌, refl, ap, Bool, true, false, Option, none, some, List, [], ◌∷◌, ◌++◌, arith, Bytes,
  ◌==◌, ◌&&◌, if◌then◌else◌,
}

-- strings.HasPrefix with strings.TrimPrefix: what follows the prefix, if it is there.
unfoldable pub after_prefix : Bytes → Bytes → Option Bytes
after_prefix [] s = some s
after_prefix (p ∷ ps) [] = none
after_prefix (p ∷ ps) (c ∷ cs) = if p == c then after_prefix ps cs else none

pub after_prefix-append : (p s : Bytes) → after_prefix p (p ++ s) ≡ some s
unfolding after_prefix
after_prefix-append [] s = refl
after_prefix-append (c ∷ p) s = ground (arith, after_prefix-append p s)

-- i := strings.IndexByte(s, c) with s[:i] and s[i+1:]; `none` where i < 0.
unfoldable pub cut_at : ℕ → Bytes → Option (Bytes × Bytes)
cut_at c [] = none
cut_at c (x ∷ xs) =
    if x == c
    then some ([], xs)
    else elim (cut_at c xs) [ none ↦ none | some (a, b) ↦ some (x ∷ a, b) ]

-- No byte of a string is `c`.
abbrev pub Avoids : ℕ → Bytes → Type 0
Avoids c [] = Unit
Avoids c (x ∷ xs) = (x ≢ c) × Avoids c xs

pub cut_at-append : (c : ℕ) (a b : Bytes) → Avoids c a → cut_at c (a ++ c ∷ b) ≡ some (a, b)
unfolding cut_at
cut_at-append c [] b h = ground arith
cut_at-append c (x ∷ a) b h = ground (arith, cut_at-append c a b h.1)
