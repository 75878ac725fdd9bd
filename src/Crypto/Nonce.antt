-- ===== src/Crypto/Nonce.antt =====
-- internal/crypto/crypto.go: chunkNonce.
use Prim.Native.Nat.{bit_xor}
use dero_ghost_drop.Base.{ℕ, ◌-◌, [], ◌∷◌, ◌++◌, take, drop, Bytes}
use dero_ghost_drop.Crypto.Words.{be64}

-- NonceSize
abbrev pub nonce_size : ℕ
nonce_size = 24

-- a[i] ^= b[i] over the bytes of b
unfoldable pub xor_bytes : Bytes → Bytes → Bytes
xor_bytes (a ∷ as') (b ∷ bs) = bit_xor a b ∷ xor_bytes as' bs
xor_bytes as' [] = as'
xor_bytes [] (b ∷ bs) = []

unfoldable pub chunk_nonce : Bytes → ℕ → Bytes
chunk_nonce header_nonce index =
    take (nonce_size - 8) header_nonce
    ++ xor_bytes (drop (nonce_size - 8) header_nonce) (be64 index)
