-- ===== src/Crypto/SingleShot.antt =====
-- internal/crypto/crypto.go: SealBytes and OpenBytes. The random nonce is an argument; `none` is a
-- failure of the random source.
use dero_ghost_drop.Base.{
  ℕ, ◌≡◌, ◌≢◌, ◌⊎◌, inl, inr, not, Option, none, some, arith, Bytes, ◌==◌, length, if◌then◌else◌,
}
use dero_ghost_drop.Crypto.Aead.{Aead}
use dero_ghost_drop.Crypto.Nonce.{nonce_size}

-- KeySize
abbrev pub key_size : ℕ
key_size = 32

pub data Failure : Type 0 where
  bad_key bad_nonce no_random auth_failed : Failure

pub data Outcome (A : Type 0) : Type 0 where
  ok : A → Outcome A
  err : Failure → Outcome A

-- SealBytes: the nonce and the ciphertext
unfoldable pub seal_bytes : Aead → Option Bytes → Bytes → Bytes → Outcome (Bytes × Bytes)
seal_bytes aead random plain key =
    if not (length key == key_size)
    then err bad_key
    else elim random [ none ↦ err no_random | some nonce ↦ ok (nonce, aead.seal key nonce plain) ]

-- OpenBytes
unfoldable pub open_bytes : Aead → Bytes → Bytes → Bytes → Outcome Bytes
open_bytes aead nonce cipher key =
    if not (length key == key_size)
    then err bad_key
    else if not (length nonce == nonce_size)
    then err bad_nonce
    else elim (aead.unseal key nonce cipher) [ none ↦ err auth_failed | some plain ↦ ok plain ]

-- Round trip. What SealBytes returns without an error, under a nonce of 24 random bytes, OpenBytes
-- opens to the same plaintext with the same key; and a key of a wrong length is refused by both.
pub open_bytes-seal_bytes :
    (aead : Aead) (nonce plain key : Bytes)
    → length nonce ≡ nonce_size
    → ((length key ≡ key_size)
        × (seal_bytes aead (some nonce) plain key ≡ ok (nonce, aead.seal key nonce plain))
        × (open_bytes aead nonce (aead.seal key nonce plain) key ≡ ok plain))
      ⊎ ((length key ≢ key_size)
          × (seal_bytes aead (some nonce) plain key ≡ err bad_key)
          × (open_bytes aead nonce (aead.seal key nonce plain) key ≡ err bad_key))
unfolding seal_bytes open_bytes
open_bytes-seal_bytes aead nonce plain key h = elim (cases (length key)) [
  | inl e ↦ inl (e, ground arith, ground (arith, aead.unseal-seal key nonce plain))
  | inr n ↦ inr (n, ground arith, ground arith)
]
  where
    cases : (n : ℕ) → (n ≡ key_size) ⊎ (n ≢ key_size)
    cases n = omega arith
