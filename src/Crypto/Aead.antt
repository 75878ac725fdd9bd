-- ===== src/Crypto/Aead.antt =====
-- XChaCha20-Poly1305 as the program uses it. The cipher is a library's: a parameter with its
-- documented behaviour, that Open undoes Seal under the same key and nonce, and that a sealed text
-- is 16 bytes longer.
use dero_ghost_drop.Base.{ℕ, ◌+◌, ◌≡◌, Option, some, Bytes, length}

-- aead.Overhead()
abbrev pub overhead : ℕ
overhead = 16

pub record Aead : Type 0 where
  pub seal : Bytes → Bytes → Bytes → Bytes
  pub unseal : Bytes → Bytes → Bytes → Option Bytes
  pub unseal-seal : (key nonce plain : Bytes) → unseal key nonce (seal key nonce plain) ≡ some plain
  pub length-seal :
      (key nonce plain : Bytes) → length (seal key nonce plain) ≡ length plain + overhead
