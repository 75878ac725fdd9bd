-- ===== src/Storage/Ids.antt =====
-- ValidateID of internal/storage/provider.go. A rune above U+007F is refused, and so is each byte of
-- one here.
use dero_ghost_drop.Base.{
  ℕ, Bool, true, false, not, [], ◌∷◌, Bytes, codes, bytes_eq, ◌==◌, leb, ◌&&◌, ◌||◌, if◌then◌else◌,
}

id_byte : ℕ → Bool
id_byte c =
    (leb b'A' c && leb c b'Z')
    || (leb b'a' c && leb c b'z')
    || (leb b'0' c && leb c b'9')
    || c == b'-'
    || c == b'_'
    || c == b'.'

all_id_bytes : Bytes → Bool
unfolding id_byte
all_id_bytes [] = true
all_id_bytes (c ∷ cs) = id_byte c && all_id_bytes cs

is_empty : Bytes → Bool
is_empty [] = true
is_empty (c ∷ cs) = false

-- `true` is the nil error.
unfoldable pub validate_id : Bytes → Bool
unfolding is_empty all_id_bytes
validate_id id =
    if is_empty id
    then false
    else if not (all_id_bytes id)
    then false
    else not (bytes_eq id (codes ".") || bytes_eq id (codes ".."))
