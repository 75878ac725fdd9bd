-- ===== src/Crypto/Wrap.antt =====
-- internal/crypto/crypto.go: WrapFileKey and UnwrapFileKey. X25519 and SHA-256 are libraries': a
-- parameter, with the documented law that both sides of an exchange compute the same secret.
use dero_ghost_drop.Base.{
  ◌≡◌, refl, Option, none, some, ◌++◌, arith, Bytes, ltb, ◌==◌, length, take, drop, length-append,
  take-append_length, drop-append_length, if◌then◌else◌,
}
use dero_ghost_drop.Crypto.Aead.{Aead}
use dero_ghost_drop.Crypto.Nonce.{nonce_size}
use dero_ghost_drop.Crypto.SingleShot.{key_size}

-- `public priv` is X25519(priv, Basepoint); an exchange may fail, as with a point of low order.
pub record Exchange : Type 0 where
  pub public : Bytes → Option Bytes
  pub shared : Bytes → Bytes → Option Bytes
  pub sha256 : Bytes → Bytes
  pub shared_agree :
      (a b pa pb : Bytes) → public a ≡ some pa → public b ≡ some pb → shared a pb ≡ shared b pa

module _ (x : Exchange) (aead : Aead) where
  -- wrapKey
  unfoldable pub wrap_key : Bytes → Bytes → Bytes → Bytes
  wrap_key secret ephem_pub recipient_pub = x.sha256 (secret ++ (ephem_pub ++ recipient_pub))

  -- WrapFileKey: nonce || sealed key, with the ephemeral public key. `random` is the nonce.
  unfoldable pub wrap_file_key : Bytes → Bytes → Bytes → Option Bytes → Option (Bytes × Bytes)
  wrap_file_key file_key recipient_pub ephem_priv random =
      elim (x.shared ephem_priv recipient_pub) [
        | none ↦ none
        | some secret ↦ elim (x.public ephem_priv) [
          | none ↦ none
          | some ephem_pub ↦ elim random [
            | none ↦ none
            | some nonce ↦ some (
              nonce ++ aead.seal (wrap_key secret ephem_pub recipient_pub) nonce file_key,
              ephem_pub,
            )
          ]
        ]
      ]

  unfoldable pub unwrapped : Option Bytes → Option Bytes
  unwrapped none = none
  unwrapped (some plain) = if length plain == key_size then some plain else none

  -- UnwrapFileKey
  unfoldable pub unwrap_file_key : Bytes → Bytes → Bytes → Option Bytes
  unwrap_file_key wrapped ephem_pub recipient_priv =
      if ltb (length wrapped) nonce_size then none else elim (x.shared recipient_priv ephem_pub) [
        | none ↦ none
        | some secret ↦ elim (x.public recipient_priv) [
          | none ↦ none
          | some recipient_pub ↦ unwrapped (
              aead.unseal (wrap_key secret ephem_pub recipient_pub) (take nonce_size wrapped)
                (drop nonce_size wrapped))
        ]
      ]

  -- Round trip. A file key of 32 bytes that was wrapped for a recipient's public key, under a nonce
  -- of 24 bytes, is unwrapped by the recipient's private key.
  pub unwrap-wrap_file_key :
      (file_key recipient_priv recipient_pub ephem_priv nonce : Bytes) {wrapped ephem_pub : Bytes}
      → length file_key ≡ key_size
      → length nonce ≡ nonce_size
      → x.public recipient_priv ≡ some recipient_pub
      → wrap_file_key file_key recipient_pub ephem_priv (some nonce) ≡ some (wrapped, ephem_pub)
      → unwrap_file_key wrapped ephem_pub recipient_priv ≡ some file_key
  unfolding wrap_file_key unwrap_file_key unwrapped
  unwrap-wrap_file_key file_key recipient_priv recipient_pub ephem_priv nonce {wrapped} {ephem_pub}
        h n r w =
      go (x.shared ephem_priv recipient_pub) refl (x.public ephem_priv) refl
    where
      go :
          (s : Option Bytes)
          → x.shared ephem_priv recipient_pub ≡ s
          → (p : Option Bytes) → x.public ephem_priv ≡ p
          → unwrap_file_key wrapped ephem_pub recipient_priv ≡ some file_key
      go none i p j = absurd (ground arith)
      go (some secret) i none j = absurd (ground arith)
      go (some secret) i (some pub_e) j =
          let sealed = aead.seal (wrap_key secret pub_e recipient_pub) nonce file_key in
          ground (
            arith,
            x.shared_agree recipient_priv ephem_priv recipient_pub pub_e r j,
            take-append_length nonce_size nonce sealed,
            drop-append_length nonce_size nonce sealed,
            length-append nonce sealed,
            aead.unseal-seal (wrap_key secret pub_e recipient_pub) nonce file_key,
          )

  -- What is wrapped is the nonce and a sealed text, next to the public key of the ephemeral one.
  pub wrap_file_key_shape :
      (file_key recipient_pub ephem_priv nonce : Bytes) {wrapped ephem_pub : Bytes}
      → wrap_file_key file_key recipient_pub ephem_priv (some nonce) ≡ some (wrapped, ephem_pub)
      → (k : Bytes) × (wrapped ≡ nonce ++ aead.seal k nonce file_key)
        × (x.public ephem_priv ≡ some ephem_pub)
  unfolding wrap_file_key
  wrap_file_key_shape file_key recipient_pub ephem_priv nonce {wrapped} {ephem_pub} w =
      go (x.shared ephem_priv recipient_pub) refl (x.public ephem_priv) refl
    where
      go :
          (s : Option Bytes)
          → x.shared ephem_priv recipient_pub ≡ s
          → (p : Option Bytes) → x.public ephem_priv ≡ p
          → (k : Bytes) × (wrapped ≡ nonce ++ aead.seal k nonce file_key)
            × (x.public ephem_priv ≡ some ephem_pub)
      go none i p j = absurd (ground arith)
      go (some secret) i none j = absurd (ground arith)
      go (some secret) i (some pub_e) j =
          (wrap_key secret pub_e recipient_pub, ground arith, ground arith)
