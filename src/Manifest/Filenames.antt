-- ===== src/Manifest/Filenames.antt =====
-- EncryptFilenames and DecryptFilenames of internal/manifest/manifest.go.
use dero_ghost_drop.Base.{
  map, ◌≡◌, refl, Option, none, some, List, [], ◌∷◌, arith, Bytes, ◌>>=◌, length,
}
use dero_ghost_drop.Base.Int.{pos}
use dero_ghost_drop.Strings.{hex_encode, hex_decode, AllBytes, hex_decode-hex_encode}
use dero_ghost_drop.Crypto.Aead.{Aead}
use dero_ghost_drop.Crypto.Nonce.{nonce_size}
use dero_ghost_drop.Crypto.SingleShot.{key_size, seal_bytes, open_bytes, Outcome, ok, err}
use dero_ghost_drop.Manifest.Types.{Manifest, FileEntry}

unfoldable pub entry_of : Outcome (Bytes × Bytes) → Option FileEntry
entry_of (err e) = none
entry_of (ok (nonce, cipher)) =
    some
      (record { name_enc = hex_encode cipher; nonce = hex_encode nonce; size = pos 0; hash = [] })

unfoldable pub opened_name : Outcome Bytes → Option Bytes
opened_name (err e) = none
opened_name (ok plain) = some plain

module _ (aead : Aead) (key : Bytes) where
  -- The loop of EncryptFilenames; each name takes a nonce of its own.
  unfoldable pub encrypt_names : List (Bytes × Bytes) → Option (List FileEntry)
  encrypt_names [] = some []
  encrypt_names ((name, nonce) ∷ names) = do
    e ← entry_of (seal_bytes aead (some nonce) name key)
    es ← encrypt_names names
    some (e ∷ es)

  unfoldable pub set_files : Manifest → List FileEntry → Manifest
  set_files m entries = record m { files = entries; file_count = length entries }

  unfoldable pub encrypt_filenames : List (Bytes × Bytes) → Manifest → Option Manifest
  encrypt_filenames names m = do entries ← encrypt_names names; some (set_files m entries)

  unfoldable pub decrypt_entry : FileEntry → Option Bytes
  decrypt_entry f = do
    nonce ← hex_decode f.nonce
    cipher ← hex_decode f.name_enc
    opened_name (open_bytes aead nonce cipher key)

  unfoldable pub decrypt_entries : List FileEntry → Option (List Bytes)
  decrypt_entries [] = some []
  decrypt_entries (f ∷ fs) = do
    name ← decrypt_entry f
    names ← decrypt_entries fs
    some (name ∷ names)

  -- DecryptFilenames
  unfoldable pub decrypt_filenames : Manifest → Option (List Bytes)
  decrypt_filenames m = decrypt_entries m.files

  -- SealMetadata and OpenMetadata
  unfoldable pub hex_both : Outcome (Bytes × Bytes) → Option (Bytes × Bytes)
  hex_both (err e) = none
  hex_both (ok (nonce, cipher)) = some (hex_encode nonce, hex_encode cipher)

  unfoldable pub seal_metadata : Option Bytes → Bytes → Option (Bytes × Bytes)
  seal_metadata random plain = hex_both (seal_bytes aead random plain key)

  unfoldable pub open_metadata : Bytes → Bytes → Option Bytes
  open_metadata nonce_hex cipher_hex = do
    nonce ← hex_decode nonce_hex
    cipher ← hex_decode cipher_hex
    opened_name (open_bytes aead nonce cipher key)

-- Names and nonces as the caller and the random source give them.
abbrev pub AllNames : List (Bytes × Bytes) → Type 0
AllNames [] = Unit
AllNames ((name, nonce) ∷ names) =
    AllBytes name × AllBytes nonce × (length nonce ≡ nonce_size) × AllNames names

module _ (aead : Aead) (key : Bytes)
    (seal-AllBytes : (nonce plain : Bytes) → AllBytes plain → AllBytes (aead.seal key nonce plain))
    (key_length : length key ≡ key_size) where
  open-seal_metadata :
      (nonce plain : Bytes)
      → AllBytes plain
      → AllBytes nonce
      → length nonce ≡ nonce_size
      → open_metadata aead key (hex_encode nonce) (hex_encode (aead.seal key nonce plain))
        ≡ some plain
  unfolding open_metadata opened_name open_bytes
  open-seal_metadata nonce plain hp hn hl = ground (
    arith,
    hex_decode-hex_encode nonce hn,
    hex_decode-hex_encode (aead.seal key nonce plain) (seal-AllBytes nonce plain hp),
    aead.unseal-seal key nonce plain,
  )

  entry_for : Bytes × Bytes → FileEntry
  entry_for (name, nonce) = record {
    name_enc = hex_encode (aead.seal key nonce name);
    nonce = hex_encode nonce;
    size = pos 0;
    hash = [];
  }

  encrypt_names-map :
      (names : List (Bytes × Bytes)) → encrypt_names aead key names ≡ some (map entry_for names)
  unfolding encrypt_names entry_of seal_bytes entry_for
  encrypt_names-map [] = refl
  encrypt_names-map ((name, nonce) ∷ names) = ground (arith, encrypt_names-map names)

  decrypt_entries-map :
      (names : List (Bytes × Bytes))
      → AllNames names
      → decrypt_entries aead key (map entry_for names) ≡ some (map (λ n. n.0) names)
  unfolding decrypt_entries decrypt_entry open_metadata entry_for
  decrypt_entries-map [] h = refl
  decrypt_entries-map ((name, nonce) ∷ names) h =
      ground (arith, decrypt_entries-map names h.3, open-seal_metadata nonce name h.0 h.1 h.2)

  -- Round trip. With a key of 32 bytes and a cipher whose output is bytes, names of bytes that
  -- EncryptFilenames has put into a manifest, each under a nonce of 24 bytes, are what
  -- DecryptFilenames gives back, in their order.
  pub decrypt-encrypt_filenames :
      (names : List (Bytes × Bytes)) (m : Manifest)
      → AllNames names
      → (encrypt_filenames aead key names m >>= decrypt_filenames aead key)
        ≡ some (map (λ n. n.0) names)
  unfolding encrypt_filenames decrypt_filenames set_files
  decrypt-encrypt_filenames names m h =
      ground (arith, encrypt_names-map names, decrypt_entries-map names h)
