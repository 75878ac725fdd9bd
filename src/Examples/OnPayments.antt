-- ===== src/Examples/OnPayments.antt =====
-- A drop for five units: the daemon is offline, then does not know the transaction, then confirms it.
use dero_ghost_drop.Base.{
  ◌≡◌, ◌≢◌, ◌⊎◌, inl, inr, refl, Bool, false, none, some, List, [], ◌∷◌, ◌++◌, arith, codes,
  bytes_eq,
}
use dero_ghost_drop.Base.Int.{negsuc}
use dero_ghost_drop.Strings.{trim_space}
use dero_ghost_drop.Payments.Check.{
  Rpc, answered, rpc_error, unreachable, Transaction, check_payment, is_not_found, is_empty,
}
use dero_ghost_drop.Payments.{Request, pending, authorize, await_payment, mark_authorized}
use dero_ghost_drop.Payments.Authorise.{Pays, authorize_only_paid}
use dero_ghost_drop.Payments.Await.{SomePays, AllQuiet, await_only_paid, await_finds_payment}

abbrev drop : Request
drop = record {
  drop_id = codes "a1";
  amount = 5;
  address = codes "dero1x";
  txid = codes "f0";
  status = pending;
}

abbrev payment : Transaction
payment = record { address = codes "dero1x"; amount = 6; confirmations = 12 }

abbrev quiet : List (Rpc × Bool)
quiet = (unreachable, false) ∷ (rpc_error (negsuc 32003), false) ∷ []

attached : is_empty (trim_space drop.txid) ≡ false
unfolding is_empty trim_space
attached = refl

present : is_empty drop.txid ≡ false
unfolding is_empty
present = refl

pays : Pays bytes_eq drop (answered payment)
unfolding trim_space bytes_eq
pays = (payment, refl, refl, omega arith, omega arith)

all_quiet : AllQuiet bytes_eq drop quiet
unfolding check_payment is_empty is_not_found trim_space
all_quiet = ((refl, inr (inr refl)), ((refl, inr (inl refl)), tt))

authorize_only_paid_example :
    let (e, q) = authorize bytes_eq (answered payment) drop in
    ((e ≡ none)
      × (q ≡ mark_authorized drop)
      × (drop.txid ≢ [])
      × Pays bytes_eq drop (answered payment))
    ⊎ ((e ≢ none) × (q ≡ drop))
authorize_only_paid_example = authorize_only_paid bytes_eq (answered payment) drop

await_only_paid_example :
    let (e, q) = await_payment bytes_eq quiet drop in
    ((e ≡ some none) × (q ≡ mark_authorized drop) × SomePays bytes_eq drop quiet)
    ⊎ ((e ≢ some none) × (q ≡ drop))
await_only_paid_example = await_only_paid bytes_eq quiet drop

await_finds_payment_example :
    await_payment bytes_eq (quiet ++ (answered payment, false) ∷ []) drop
    ≡ (some none, mark_authorized drop)
await_finds_payment_example =
    await_finds_payment bytes_eq quiet [] (answered payment) false drop attached present all_quiet
      pays
