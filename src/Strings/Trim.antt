-- ===== src/Strings/Trim.antt =====
-- strings.TrimSpace: the white space of Unicode, by its UTF-8 bytes, off both ends.
use mathlib.Core.List.{reverse, reverse-reverse}
use dero_ghost_drop.Base.{
  ℕ, zero, suc, ◌≡◌, refl, ap, ◌∙◌, Bool, true, [], ◌∷◌, arith, Bytes, ◌==◌, leb, ◌&&◌, ◌||◌,
  if◌then◌else◌, drop, length,
}

-- \t \n \v \f \r and the blank
unfoldable pub ascii_space : ℕ → Bool
ascii_space c = (leb 9 c && leb c 13) || c == 32

-- U+0085 and U+00A0
space2 : ℕ → ℕ → Bool
space2 a b = a == 0xc2 && (b == 0x85 || b == 0xa0)

-- U+1680, U+2000 to U+200A, U+2028, U+2029, U+202F, U+205F and U+3000
space3 : ℕ → ℕ → ℕ → Bool
space3 a b c =
    (a == 0xe1 && b == 0x9a && c == 0x80)
    || (a == 0xe2
        && b == 0x80
        && ((leb 0x80 c && leb c 0x8a) || c == 0xa8 || c == 0xa9 || c == 0xaf))
    || (a == 0xe2 && b == 0x81 && c == 0x9f)
    || (a == 0xe3 && b == 0x80 && c == 0x80)

-- The bytes that the first rune takes, if it is white space; 0 if not.
space_width : Bytes → ℕ
unfolding ascii_space space2 space3
space_width (a ∷ b ∷ c ∷ r) =
    if ascii_space a then 1 else if space2 a b then 2 else if space3 a b c then 3 else 0
space_width (a ∷ b ∷ []) = if ascii_space a then 1 else if space2 a b then 2 else 0
space_width (a ∷ []) = if ascii_space a then 1 else 0
space_width [] = 0

-- The same of the last rune of a string that is given backwards.
space_width_back : Bytes → ℕ
unfolding ascii_space space2 space3
space_width_back (c ∷ b ∷ a ∷ r) =
    if ascii_space c then 1 else if space2 b c then 2 else if space3 a b c then 3 else 0
space_width_back (b ∷ a ∷ []) = if ascii_space b then 1 else if space2 a b then 2 else 0
space_width_back (a ∷ []) = if ascii_space a then 1 else 0
space_width_back [] = 0

-- Drops white space as long as there is some; the length of the string is enough fuel.
trim_by : (Bytes → ℕ) → ℕ → Bytes → Bytes
trim_by width zero s = s
trim_by width (suc fuel) s =
    let rest = trim_by width fuel (drop (width s) s) in if width s == 0 then s else rest

unfoldable pub trim_space : Bytes → Bytes
unfolding trim_by space_width space_width_back
trim_space s =
    let t = trim_by space_width (length s) s in
    reverse (trim_by space_width_back (length t) (reverse t))

-- A byte that no white space begins or ends with.
abbrev pub is_edge : ℕ → Bool
is_edge c = leb 33 c && leb c 126

trim_by_stop : (width : Bytes → ℕ) (n : ℕ) (s : Bytes) → width s ≡ 0 → trim_by width n s ≡ s
unfolding trim_by
trim_by_stop width zero s h = refl
trim_by_stop width (suc n) s h = ground arith

space_width_edge : (a : ℕ) (r : Bytes) → is_edge a ≡ true → space_width (a ∷ r) ≡ 0
unfolding space_width
space_width_edge a (b ∷ c ∷ r) h = ground arith
space_width_edge a (b ∷ []) h = ground arith
space_width_edge a [] h = ground arith

space_width_back_edge : (a : ℕ) (r : Bytes) → is_edge a ≡ true → space_width_back (a ∷ r) ≡ 0
unfolding space_width_back
space_width_back_edge a (b ∷ c ∷ r) h = ground arith
space_width_back_edge a (b ∷ []) h = ground arith
space_width_back_edge a [] h = ground arith

-- A string that begins and ends with printable ASCII is not trimmed.
pub trim_space_edges :
    (s : Bytes) (a z : ℕ) (r t : Bytes)
    → s ≡ a ∷ r
    → reverse s ≡ z ∷ t
    → is_edge a ≡ true
    → is_edge z ≡ true
    → trim_space s ≡ s
unfolding trim_space
trim_space_edges s a z r t first last ha hz =
    ap (λ (u : Bytes). reverse (trim_by space_width_back (length u) (reverse u)))
      (trim_by_stop space_width (length s) s (ap space_width first ∙ space_width_edge a r ha))
    ∙ ap reverse (
        trim_by_stop space_width_back (length s) (reverse s)
          (ap space_width_back last ∙ space_width_back_edge z t hz))
    ∙ reverse-reverse s
