-- ===== src/Examples/OnManifest.antt =====
-- Manifests that are signed, and names that are sealed.
use dero_ghost_drop.Base.{◌≡◌, refl, true, none, some, [], ◌∷◌, ◌++◌, arith, Bytes, codes, ◌>>=◌}
use dero_ghost_drop.Manifest.Types.{Manifest, new}
use dero_ghost_drop.Manifest.Signing.{sign, verified, pub_from_priv, verify-sign}
use dero_ghost_drop.Manifest.Filenames.{
  encrypt_filenames, decrypt_filenames, decrypt-encrypt_filenames,
}
use dero_ghost_drop.Strings.{append-AllBytes}
use dero_ghost_drop.Examples.Toys.{cipher, ed, zeros32, nonce, nonce-AllBytes, tag, tag-AllBytes}

abbrev blank : Manifest
blank = new (codes "GD-0123456789ab") (codes "direct") 100 5

abbrev json : Manifest → Bytes
json m = m.drop_id

verify-sign_example :
    (verified ed json (sign ed json (zeros32 ++ zeros32) (codes "me") blank) ≡ true)
    × (sign ed json zeros32 (codes "me") blank ≡ none)
    × (pub_from_priv ed zeros32 ≡ some zeros32)
verify-sign_example = verify-sign ed json zeros32 (codes "me") blank refl

decrypt-encrypt_filenames_example :
    (encrypt_filenames cipher zeros32 ((codes "a", nonce) ∷ (codes "b", nonce) ∷ []) blank
      >>= decrypt_filenames cipher zeros32)
    ≡ some (codes "a" ∷ codes "b" ∷ [])
decrypt-encrypt_filenames_example =
    decrypt-encrypt_filenames cipher zeros32 (λ n p h. append-AllBytes p tag h tag-AllBytes) refl
      ((codes "a", nonce) ∷ (codes "b", nonce) ∷ []) blank
      ((omega arith, tt), nonce-AllBytes, refl, ((omega arith, tt), nonce-AllBytes, refl, tt))
