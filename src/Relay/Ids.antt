-- ===== src/Relay/Ids.antt =====
-- validID of internal/relay/server.go. The loop of the source ranges over runes; a rune above
-- U+007F is refused, and so is each byte of one here.
use dero_ghost_drop.Base.{
  ℕ, ◌≤◌, ◌<◌, ◌≡◌, ◌⊎◌, inl, inr, Bool, true, false, not, [], ◌∷◌, arith, Bytes, codes, bytes_eq,
  ◌==◌, leb, ltb, ◌&&◌, ◌||◌, length, if◌then◌else◌,
}

id_byte : ℕ → Bool
id_byte c =
    (leb b'a' c && leb c b'z')
    || (leb b'A' c && leb c b'Z')
    || (leb b'0' c && leb c b'9')
    || c == b'-'
    || c == b'_'
    || c == b'.'

all_id_bytes : Bytes → Bool
unfolding id_byte
all_id_bytes [] = true
all_id_bytes (c ∷ cs) = id_byte c && all_id_bytes cs

-- strings.Contains(id, "..")
has_dots : Bytes → Bool
has_dots (a ∷ b ∷ r) = (a == b'.' && b == b'.') || has_dots (b ∷ r)
has_dots _ = false

is_empty : Bytes → Bool
is_empty [] = true
is_empty (c ∷ cs) = false

unfoldable pub valid_id : Bytes → Bool
unfolding is_empty all_id_bytes has_dots
valid_id id =
    if is_empty id || ltb 128 (length id)
    then false
    else if not (all_id_bytes id)
    then false
    else not (bytes_eq id (codes ".") || bytes_eq id (codes "..") || has_dots id)

-- A byte is in the string.
abbrev pub Holds : ℕ → Bytes → Type 0
Holds c [] = ⊥
Holds c (x ∷ xs) = (x ≡ c) ⊎ Holds c xs

all_id_bytes-no_slash : (cs : Bytes) → all_id_bytes cs ≡ true → ¬ Holds b'/' cs
unfolding all_id_bytes
all_id_bytes-no_slash [] h = λ k. k
all_id_bytes-no_slash (c ∷ cs) h =
    λ k. elim k [ inl e ↦ ground arith | inr r ↦ all_id_bytes-no_slash cs (ground arith) r ]

-- Two dots stand next to one another in the string.
abbrev pub HasParent : Bytes → Type 0
HasParent [] = ⊥
HasParent (a ∷ []) = ⊥
HasParent (a ∷ b ∷ r) = ((a ≡ b'.') × (b ≡ b'.')) ⊎ HasParent (b ∷ r)

has_dots-false : (cs : Bytes) → has_dots cs ≡ false → ¬ HasParent cs
unfolding has_dots
has_dots-false [] h = λ k. k
has_dots-false (a ∷ []) h = λ k. k
has_dots-false (a ∷ b ∷ r) h =
    λ k. elim k [ inl e ↦ ground arith | inr t ↦ has_dots-false (b ∷ r) (ground arith) t ]

valid_id_parts :
    (id : Bytes)
    → valid_id id ≡ true
    → (0 < length id) × (length id ≤ 128) × (all_id_bytes id ≡ true) × (has_dots id ≡ false)
unfolding valid_id
valid_id_parts [] h = absurd (cc)
valid_id_parts (c ∷ cs) h = ground arith

-- An id that validID accepts has 1 to 128 bytes, no slash and no "..": joined to the data
-- directory it names a file in that directory.
pub valid_id-stays_inside :
    (id : Bytes)
    → valid_id id ≡ true
    → (0 < length id) × (length id ≤ 128) × (¬ Holds b'/' id) × (¬ HasParent id)
valid_id-stays_inside id h =
    let (a, b, c, d) = valid_id_parts id h in
    (a, b, all_id_bytes-no_slash id c, has_dots-false id d)
