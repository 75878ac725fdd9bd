-- ===== src/Crypto/Words.antt =====
-- binary.BigEndian: the bytes of a word, highest first.
use dero_ghost_drop.Base.{
  ℕ, ◌+◌, ◌*◌, ◌/◌, ◌%◌, ◌^◌, ◌<◌, ◌≡◌, Option, none, some, [], ◌∷◌, ◌++◌, arith, Bytes,
}

-- PutUint32
unfoldable pub be32 : ℕ → Bytes
be32 n = n / 2 ^ 24 % 256 ∷ n / 2 ^ 16 % 256 ∷ n / 2 ^ 8 % 256 ∷ n % 256 ∷ []

-- io.ReadFull of four bytes with Uint32: the word and what follows it; `none` where there are fewer.
unfoldable pub read_be32 : Bytes → Option (ℕ × Bytes)
read_be32 (a ∷ b ∷ c ∷ d ∷ rest) = some (((a * 256 + b) * 256 + c) * 256 + d, rest)
read_be32 _ = none

pub read_be32-be32 :
    (n : ℕ) (rest : Bytes) → n < 2 ^ 32 → read_be32 (be32 n ++ rest) ≡ some (n, rest)
unfolding be32 read_be32
read_be32-be32 n rest h = ground arith

-- PutUint64
unfoldable pub be64 : ℕ → Bytes
be64 n =
    n / 2 ^ 56 % 256
    ∷ n / 2 ^ 48 % 256
    ∷ n / 2 ^ 40 % 256
    ∷ n / 2 ^ 32 % 256
    ∷ n / 2 ^ 24 % 256
    ∷ n / 2 ^ 16 % 256
    ∷ n / 2 ^ 8 % 256
    ∷ n % 256
    ∷ []
