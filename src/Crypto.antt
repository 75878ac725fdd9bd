-- ===== src/Crypto.antt =====
-- internal/crypto/crypto.go: the GD01 file format and the wrapping of keys.
pub mod Aead
pub mod Nonce
pub mod Words
pub mod Gd01
pub mod SingleShot
pub mod Wrap
