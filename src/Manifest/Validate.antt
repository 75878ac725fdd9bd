-- ===== src/Manifest/Validate.antt =====
-- Validate of internal/manifest/manifest.go.
use dero_ghost_drop.Base.{
  ◌≡◌, ◌≢◌, refl, ℕ, Bool, true, false, not, ◌||◌, ◌&&◌, Option, none, some, List, [], ◌∷◌, Bytes,
  codes, bytes_eq, ltb, ◌==◌, length, drop, if◌then◌else◌,
}
use dero_ghost_drop.Base.Int.{ℤ, pos, negsuc}
use dero_ghost_drop.Strings.{hex_encode, after_prefix, hex_decode}
use dero_ghost_drop.Manifest.Types.{Manifest, FileEntry, version_1, manifest_chunk_size}

pub data Invalid : Type 0 where
  bad_drop_id bad_version empty_mode unknown_mode zero_created bad_expiry : Invalid
  bad_chunk_size empty_cipher bad_count negative_payload bad_file : Invalid

unfoldable pub is_empty : Bytes → Bool
is_empty [] = true
is_empty (c ∷ cs) = false

unfoldable pub is_some : Option Bytes → Bool
is_some none = false
is_some (some s) = true

-- knownModes
unfoldable pub known_mode : Bytes → Bool
known_mode m =
    bytes_eq m (codes "anonymous")
    || bytes_eq m (codes "password")
    || bytes_eq m (codes "recipient")
    || bytes_eq m (codes "paid")
    || bytes_eq m (codes "direct")

-- a.After(b)
unfoldable pub is_after : Option ℕ → Option ℕ → Bool
is_after none b = false
is_after (some a) none = true
is_after (some a) (some b) = ltb b a

unfoldable pub is_negative : ℤ → Bool
is_negative (pos n) = false
is_negative (negsuc n) = true

unfoldable pub file_ok : FileEntry → Bool
file_ok f =
    not (is_empty f.name_enc || is_empty f.nonce)
    && is_some (hex_decode f.name_enc)
    && is_some (hex_decode f.nonce)
    && not (is_negative f.size)

unfoldable pub files_ok : List FileEntry → Bool
files_ok [] = true
files_ok (f ∷ fs) = file_ok f && files_ok fs

-- Validate; `none` is the nil error.
unfoldable pub validate : Manifest → Option Invalid
validate m =
    if not (is_some (after_prefix (codes "GD-") m.drop_id)) || not (length m.drop_id == 15)
    then some bad_drop_id
    else if not (is_some (hex_decode (drop 3 m.drop_id)))
    then some bad_drop_id
    else if not (m.version == version_1)
    then some bad_version
    else if is_empty m.mode
    then some empty_mode
    else if not (known_mode m.mode)
    then some unknown_mode
    else if not (is_after m.created_at none)
    then some zero_created
    else if not (is_after m.expires_at m.created_at)
    then some bad_expiry
    else if not (m.chunk_size == manifest_chunk_size)
    then some bad_chunk_size
    else if is_empty m.cipher
    then some empty_cipher
    else if not (m.file_count == length m.files)
    then some bad_count
    else if is_negative m.payload_size
    then some negative_payload
    else if files_ok m.files
    then none
    else some bad_file

pub is_empty-hex_encode : (s : Bytes) → length s ≢ 0 → is_empty (hex_encode s) ≡ false
unfolding is_empty hex_encode
is_empty-hex_encode [] h = absurd (h refl)
is_empty-hex_encode (c ∷ s) h = refl
