-- ===== src/Payments/Authorise.antt =====
-- When a drop is paid: what an authorisation rests on, and what leaves the request alone.
use dero_ghost_drop.Base.{
  ◌≤◌, ◌≡◌, ◌≢◌, ◌⊎◌, inl, inr, refl, ap, Bool, true, false, none, [], arith, Bytes,
}
use dero_ghost_drop.Strings.{trim_space}
use dero_ghost_drop.Payments.Check.{
  Rpc, answered, undecodable, rpc_error, unreachable, broken, Transaction, Checked, confirmed,
  unconfirmed, failed, check_payment, check_transaction, min_confirmations, is_empty,
}
use dero_ghost_drop.Payments.{Request, authorize, mark_authorized}

module _ (fold : Bytes → Bytes → Bool) where
  -- The daemon's answer is a transaction to the address, of the amount at least, and deep enough.
  abbrev pub Pays : Request → Rpc → Type 0
  Pays r rpc =
      (out : Transaction) × (rpc ≡ answered out)
      × (fold (trim_space out.address) (trim_space r.address) ≡ true)
      × (r.amount ≤ out.amount)
      × (min_confirmations ≤ out.confirmations)

  pub confirmed-Pays :
      (r : Request) (rpc : Rpc)
      → check_payment fold r.txid r.address r.amount rpc ≡ confirmed
      → Pays r rpc
  unfolding check_payment check_transaction
  confirmed-Pays r (answered out) h = (out, refl, ground arith, ground arith, ground arith)
  confirmed-Pays r undecodable h = ground arith
  confirmed-Pays r (rpc_error code) h = ground arith
  confirmed-Pays r unreachable h = ground arith
  confirmed-Pays r broken h = ground arith

  pub Pays-confirmed :
      (r : Request) (rpc : Rpc)
      → is_empty (trim_space r.txid) ≡ false
      → Pays r rpc
      → check_payment fold r.txid r.address r.amount rpc ≡ confirmed
  unfolding check_payment check_transaction
  Pays-confirmed r rpc h (out, e, f, a, c) = rw e (ground arith)

not_empty : {t : Bytes} → is_empty t ≡ false → t ≢ []
unfolding is_empty
not_empty h n = grind (arith, ap is_empty n)

-- Authorize reports no error only if a transaction is attached and the daemon answered with a
-- payment to the request's address of at least its amount with ten confirmations; then the request
-- is authorized and otherwise as before. On every error the request is as it was.
pub authorize_only_paid :
    (fold : Bytes → Bytes → Bool) (rpc : Rpc) (r : Request)
    → let (e, q) = authorize fold rpc r in
      ((e ≡ none) × (q ≡ mark_authorized r) × (r.txid ≢ []) × Pays fold r rpc)
      ⊎ ((e ≢ none) × (q ≡ r))
unfolding authorize is_empty
authorize_only_paid fold rpc r =
    go (is_empty r.txid) refl (check_payment fold r.txid r.address r.amount rpc) refl
  where
    go :
        (b : Bool)
        → is_empty r.txid ≡ b
        → (c : Checked) → check_payment fold r.txid r.address r.amount rpc ≡ c
        → let (e, q) = authorize fold rpc r in
          ((e ≡ none) × (q ≡ mark_authorized r) × (r.txid ≢ []) × Pays fold r rpc)
          ⊎ ((e ≢ none) × (q ≡ r))
    go true h c k = inr (ground arith, ground arith)
    go false h confirmed k =
        inl (ground arith, ground arith, λ n. absurd (not_empty h n), confirmed-Pays fold r rpc k)
    go false h unconfirmed k = inr (ground arith, ground arith)
    go false h (failed e) k = inr (ground arith, ground arith)
