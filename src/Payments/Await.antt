-- ===== src/Payments/Await.antt =====
-- What AwaitPayment ends with, and when.
use dero_ghost_drop.Base.{
  ◌≡◌, ◌≢◌, ◌⊎◌, inl, inr, refl, ap, Bool, true, false, Option, none, some, List, [], ◌∷◌, ◌++◌,
  ◌∙◌, if◌then◌else◌, arith, Bytes,
}
use dero_ghost_drop.Strings.{trim_space}
use dero_ghost_drop.Payments.Check.{
  Rpc, Checked, confirmed, unconfirmed, failed, tx_not_found, offline, check_payment, is_empty,
  other,
}
use dero_ghost_drop.Payments.{
  Request, Refusal, poll, await_payment, poll_round, mark_authorized, ctx_ended,
}
use dero_ghost_drop.Payments.Authorise.{Pays, confirmed-Pays, Pays-confirmed}

module _ (fold : Bytes → Bytes → Bool) where
  -- One of the answers is a payment.
  abbrev pub SomePays : Request → List (Rpc × Bool) → Type 0
  SomePays r [] = ⊥
  SomePays r ((rpc, ended) ∷ rest) = Pays fold r rpc ⊎ SomePays r rest

  -- Not a payment yet: unconfirmed, unknown or unreachable, with ctx still running behind it.
  abbrev pub IsQuiet : Request → Rpc × Bool → Type 0
  IsQuiet r (rpc, ended) =
      (ended ≡ false)
      × ((check_payment fold r.txid r.address r.amount rpc ≡ unconfirmed)
          ⊎ (check_payment fold r.txid r.address r.amount rpc ≡ failed tx_not_found)
          ⊎ (check_payment fold r.txid r.address r.amount rpc ≡ failed offline))

  abbrev pub AllQuiet : Request → List (Rpc × Bool) → Type 0
  AllQuiet r [] = Unit
  AllQuiet r (p ∷ ps) = IsQuiet r p × AllQuiet r ps

  -- What a loop may end with: a payment and the authorised request, or anything else and the same
  -- request.
  abbrev pub Fair : Request → List (Rpc × Bool) → Option (Option Refusal) × Request → Type 0
  Fair r polls (e, q) =
      ((e ≡ some none) × (q ≡ mark_authorized r) × SomePays r polls) ⊎ ((e ≢ some none) × (q ≡ r))

  wait-Fair :
      (rpc : Rpc) (ended : Bool) (rest : List (Rpc × Bool)) (r : Request)
      → Fair r rest (poll fold rest r)
      → Fair r
          ((rpc, ended) ∷ rest)
          (if ended then (some (some ctx_ended), r) else poll fold rest r)
  wait-Fair rpc true rest r h = inr (ground arith, refl)
  wait-Fair rpc false rest r (inl (a, b, c)) = inl (a, b, inr c)
  wait-Fair rpc false rest r (inr h) = inr h

  round-Fair :
      (rpc : Rpc) (ended : Bool) (rest : List (Rpc × Bool)) (r : Request)
      → (w : Option (Option Refusal) × Request) → Fair r ((rpc, ended) ∷ rest) w
      → (c : Checked) → check_payment fold r.txid r.address r.amount rpc ≡ c
      → Fair r ((rpc, ended) ∷ rest) (poll_round c r w)
  unfolding poll_round
  round-Fair rpc ended rest r w h confirmed k = inl (refl, refl, inl (confirmed-Pays fold r rpc k))
  round-Fair rpc ended rest r w h unconfirmed k = h
  round-Fair rpc ended rest r w h (failed tx_not_found) k = h
  round-Fair rpc ended rest r w h (failed offline) k = h
  round-Fair rpc ended rest r w h (failed other) k = inr (ground arith, refl)

  poll-Fair : (polls : List (Rpc × Bool)) (r : Request) → Fair r polls (poll fold polls r)
  unfolding poll
  poll-Fair [] r = inr (ground arith, refl)
  poll-Fair ((rpc, ended) ∷ rest) r =
      round-Fair rpc ended rest r (if ended then (some (some ctx_ended), r) else poll fold rest r)
        (wait-Fair rpc ended rest r (poll-Fair rest r))
        (check_payment fold r.txid r.address r.amount rpc) refl

  poll_paid :
      (rpc : Rpc) (ended : Bool) (rest : List (Rpc × Bool)) (r : Request)
      → check_payment fold r.txid r.address r.amount rpc ≡ confirmed
      → poll fold ((rpc, ended) ∷ rest) r ≡ (some none, mark_authorized r)
  unfolding poll poll_round
  poll_paid rpc ended rest r k =
      ap (λ c. poll_round c r (if ended then (some (some ctx_ended), r) else poll fold rest r)) k

  poll_quiet :
      (quiet rest : List (Rpc × Bool)) (r : Request)
      → AllQuiet r quiet
      → poll fold (quiet ++ rest) r ≡ poll fold rest r
  unfolding poll poll_round
  poll_quiet [] rest r h = refl
  poll_quiet ((rpc, ended) ∷ quiet) rest r h = ground (arith, poll_quiet quiet rest r h.1)

-- AwaitPayment ends without an error only if one of the daemon's answers was a payment to the
-- request's address of at least its amount with ten confirmations; then the request is authorized.
-- With every error, and as long as it waits, the request is as it was.
pub await_only_paid :
    (fold : Bytes → Bytes → Bool) (polls : List (Rpc × Bool)) (r : Request)
    → let (e, q) = await_payment fold polls r in
      ((e ≡ some none) × (q ≡ mark_authorized r) × SomePays fold r polls)
      ⊎ ((e ≢ some none) × (q ≡ r))
unfolding await_payment
await_only_paid fold polls r = go (is_empty r.txid) refl
  where
    go : (b : Bool) → is_empty r.txid ≡ b → Fair fold r polls (await_payment fold polls r)
    go true h = rw h (inr (ground arith, refl))
    go false h = rw h (poll-Fair fold polls r)

-- A payment is found. With a transaction attached, after any number of answers that are no error but
-- that the transaction is unknown or the daemon offline, and while ctx has not ended, the first
-- answer that is a payment ends the loop without an error and authorizes the request.
pub await_finds_payment :
    (fold : Bytes → Bytes → Bool) (quiet rest : List (Rpc × Bool)) (rpc : Rpc) (ended : Bool)
    (r : Request)
    → is_empty (trim_space r.txid) ≡ false
    → is_empty r.txid ≡ false
    → AllQuiet fold r quiet
    → Pays fold r rpc
    → await_payment fold (quiet ++ (rpc, ended) ∷ rest) r ≡ (some none, mark_authorized r)
unfolding await_payment
await_finds_payment fold quiet rest rpc ended r t n h p = rw n (
    poll_quiet fold quiet ((rpc, ended) ∷ rest) r h
    ∙ poll_paid fold rpc ended rest r (Pays-confirmed fold r rpc t p))
