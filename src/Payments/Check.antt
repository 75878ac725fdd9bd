-- ===== src/Payments/Check.antt =====
-- internal/dero/dero.go: CheckPayment and ValidateAddress. The answer of the daemon to
-- get_transaction is an argument.
use dero_ghost_drop.Base.{
  ℕ, Bool, true, false, not, Option, none, some, [], ◌∷◌, Bytes, codes, length, ltb, leb, ◌&&◌,
  ◌||◌, ◌==◌, if◌then◌else◌,
}
use dero_ghost_drop.Base.Int.{ℤ, pos, negsuc}
use dero_ghost_drop.Strings.{trim_space, after_prefix}

-- The fields of the answer that are used.
pub record Transaction : Type 0 where
  pub address : Bytes
  pub amount : ℕ
  pub confirmations : ℕ

-- What the call and the decoding give: a transaction, JSON that does not decode, an error object of
-- the daemon with its code, no connection, or another failure.
pub data Rpc : Type 0 where
  answered : Transaction → Rpc
  undecodable : Rpc
  rpc_error : ℤ → Rpc
  unreachable : Rpc
  broken : Rpc

pub data Error : Type 0 where
  tx_not_found offline other : Error

pub data Checked : Type 0 where
  confirmed unconfirmed : Checked
  failed : Error → Checked

-- MinConfirmations
abbrev pub min_confirmations : ℕ
min_confirmations = 10

unfoldable pub is_empty : Bytes → Bool
is_empty [] = true
is_empty (c ∷ cs) = false

-- rpcErr.Code == rpcNotFoundCode
unfoldable pub is_not_found : ℤ → Bool
is_not_found (pos n) = false
is_not_found (negsuc n) = n == 32003

-- The decision on a decoded transaction.
unfoldable pub check_transaction : (Bytes → Bytes → Bool) → Bytes → ℕ → Transaction → Checked
check_transaction fold address min_amount out =
    if not (fold (trim_space out.address) (trim_space address))
    then unconfirmed
    else if ltb out.amount min_amount
    then unconfirmed
    else if ltb out.confirmations min_confirmations
    then unconfirmed
    else confirmed

-- CheckPayment
unfoldable pub check_payment : (Bytes → Bytes → Bool) → Bytes → Bytes → ℕ → Rpc → Checked
check_payment fold txid address min_amount rpc =
    if is_empty (trim_space txid) then failed other else elim rpc [
      | answered out ↦ check_transaction fold address min_amount out
      | undecodable ↦ failed other
      | rpc_error code ↦ if is_not_found code then failed tx_not_found else failed other
      | unreachable ↦ failed offline
      | broken ↦ failed other
    ]

unfoldable pub alphanumeric : Bytes → Bool
alphanumeric [] = true
alphanumeric (c ∷ cs) =
    ((leb b'0' c && leb c b'9') || (leb b'a' c && leb c b'z') || (leb b'A' c && leb c b'Z'))
    && alphanumeric cs

unfoldable pub has_prefix : Option Bytes → Bool
has_prefix none = false
has_prefix (some rest) = true

-- ValidateAddress
unfoldable pub validate_address : Bytes → Bool
validate_address addr =
    let a = trim_space addr in
    if not (has_prefix (after_prefix (codes "dero1") a))
    then false
    else if ltb (length a) 60 || ltb 128 (length a)
    then false
    else alphanumeric a
