-- ===== src/Payments.antt =====
-- internal/payments/payments.go: the authorisation of a paid drop. A request is its fields; what the
-- daemon answers to each call of get_transaction is an argument.
pub mod Check
pub mod Authorise
pub mod Await
use dero_ghost_drop.Base.{
  ℕ, Bool, true, false, Option, none, some, List, [], ◌∷◌, Bytes, ◌==◌, not, if◌then◌else◌,
}
use dero_ghost_drop.Strings.{trim_space}
use dero_ghost_drop.Payments.Check.{
  Rpc, Error, tx_not_found, offline, Checked, confirmed, unconfirmed, failed, check_payment,
  validate_address, is_empty,
}

pub data Status : Type 0 where
  pending authorized : Status

pub record Request : Type 0 where
  pub drop_id : Bytes
  pub amount : ℕ
  pub address : Bytes
  pub txid : Bytes
  pub status : Status

pub data Refusal : Type 0 where
  invalid_request no_txid not_paid : Refusal
  checked : Error → Refusal
  ctx_ended : Refusal

-- CreateRequest
unfoldable pub create_request : Bytes → ℕ → Bytes → Option Request
create_request drop_id amount address =
    if is_empty (trim_space drop_id)
    then none
    else if amount == 0
    then none
    else if not (validate_address address)
    then none
    else some (record {
      drop_id = trim_space drop_id;
      amount = amount;
      address = trim_space address;
      txid = [];
      status = pending;
    })

-- AttachTxid; `none` is the nil error.
unfoldable pub attach_txid : Bytes → Request → Option Refusal × Request
attach_txid txid r =
    if is_empty (trim_space txid)
    then (some invalid_request, r)
    else (none, record r { txid = trim_space txid })

unfoldable pub is_authorized : Request → Bool
is_authorized r = elim r.status [ pending ↦ false | authorized ↦ true ]

unfoldable pub mark_authorized : Request → Request
mark_authorized r = record r { status = authorized }

-- One round of AwaitPayment: what the check gave, and `wait` for the select and the rounds behind it.
unfoldable pub poll_round :
    Checked → Request → Option (Option Refusal) × Request → Option (Option Refusal) × Request
poll_round confirmed r wait = (some none, mark_authorized r)
poll_round unconfirmed r wait = wait
poll_round (failed tx_not_found) r wait = wait
poll_round (failed offline) r wait = wait
poll_round (failed e) r wait = (some (some (checked e)), r)

-- `fold` is strings.EqualFold.
module _ (fold : Bytes → Bytes → Bool) where
  -- Authorize, with the answer to its one call
  unfoldable pub authorize : Rpc → Request → Option Refusal × Request
  authorize rpc r =
      if is_empty r.txid
      then (some no_txid, r)
      else elim (check_payment fold r.txid r.address r.amount rpc) [
        | failed tx_not_found ↦ (some not_paid, r)
        | failed e ↦ (some (checked e), r)
        | unconfirmed ↦ (some not_paid, r)
        | confirmed ↦ (none, mark_authorized r)
      ]

  -- The loop of AwaitPayment, over the answers to its calls and whether ctx has ended in the wait
  -- behind each; `none` says that it is still waiting behind the last.
  unfoldable pub poll : List (Rpc × Bool) → Request → Option (Option Refusal) × Request
  poll [] r = (none, r)
  poll ((rpc, ended) ∷ rest) r =
      let next = poll rest r in
      poll_round (check_payment fold r.txid r.address r.amount rpc) r
        (if ended then (some (some ctx_ended), r) else next)

  -- AwaitPayment
  unfoldable pub await_payment : List (Rpc × Bool) → Request → Option (Option Refusal) × Request
  await_payment polls r = if is_empty r.txid then (some (some no_txid), r) else poll polls r
