-- ===== src/Storage/Types.antt =====
-- The shared types of internal/storage: errors, the reader of a Put, and the test of an expiry.
use dero_ghost_drop.Base.{ℕ, Bool, false, Option, none, some, Bytes, ltb}

pub data Error : Type 0 where
  bad_id cancelled negative_size quota short_read read_failed not_found expired out_of_range : Error
  io_error unfinished : Error

-- A result, or an error.
pub data Result (A : Type 0) : Type 0 where
  ok : A → Result A
  err : Error → Result A

-- A reader: the bytes that it delivers, and whether it fails behind them instead of ending.
pub record Reader : Type 0 where
  pub bytes : Bytes
  pub fails : Bool

-- !expiry.IsZero() && now.After(expiry); `none` is the zero time.
unfoldable pub is_past : Option ℕ → ℕ → Bool
is_past none now = false
is_past (some t) now = ltb t now

-- What a provider keeps for an id: the payload, and the expiry with `none` for the zero time.
pub record Blob : Type 0 where
  pub bytes : Bytes
  pub expiry : Option ℕ
