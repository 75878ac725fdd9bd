-- ===== src/Events/Order.antt =====
-- What a subscriber of internal/events/bus.go receives.
use mathlib.Core.List.{append_assoc}
use mathlib.Core.Path.{subst}
use dero_ghost_drop.Base.{
  ℕ, ◌≡◌, ◌≢◌, ◌⊎◌, inl, inr, sym, ap, ◌∙◌, Bool, true, false, List, [], ◌∷◌, ◌++◌, arith, ◌==◌,
  if◌then◌else◌,
}
use dero_ghost_drop.Base.Int.{ℤ}
use dero_ghost_drop.Events.{
  new_bus, Event, Bus, subscribe, unsubscribe, offer_all, offer_one, stamped, publish, receive,
}
use dero_ghost_drop.Events.Sublists.{Sublist, none_left, Sublist-later, Sublist-both}
use dero_ghost_drop.Events.Waiting.{
  append_some, waiting, Fits, Fresh, waiting_offer, waiting-offer_one, waiting-closed,
  waiting-Fresh, waiting_other, received, offer-Fits, offer_one-Fits, offer_one-Fresh, closed-Fits,
  receive-Fits, offer-Fresh, closed-Fresh, receive-Fresh,
}

pub data Step : Type 0 where
  subscribes : ℤ → Step
  unsubscribes : ℕ → Step
  publishes : Event → ℕ → Step
  sends : Event → ℕ → Step
  receives : ℕ → Step

-- The bus, the events that Publish has sent to the channel `id` or would have if it were subscribed
-- and had room, and what was received from the channel. `publishes` is a whole Publish; `sends` is
-- one round of its loop, where several overlap.
pub record Run : Type 0 where
  pub bus : Bus
  pub log : List Event
  pub got : List Event

unfoldable pub step : ℕ → Step → Run → Run
step id (subscribes n) r = record r { bus = (subscribe n r.bus).1 }
step id (unsubscribes j) r = record r { bus = unsubscribe j r.bus }
step id (publishes e now) r = record r {
  bus = publish e now r.bus;
  log = r.log ++ (record e { at = stamped e.at now } ∷ []);
}
step id (sends e j) r = record r {
  bus = record r.bus { subs = offer_one e j r.bus.subs };
  log = if j == id then r.log ++ (e ∷ []) else r.log;
}
step id (receives j) r =
    let a = receive j r.bus.subs in
    record {
      bus = record r.bus { subs = a.1 };
      log = r.log;
      got = if j == id then append_some r.got a.0 else r.got;
    }

unfoldable pub run : ℕ → List Step → Run → Run
run id [] r = r
run id (s ∷ ss) r = run id ss (step id s r)

-- What was received from the channel and what waits in it are published events, in their order; no
-- buffer is over its room; and no id is used twice.
pub record IsOrdered (id : ℕ) (r : Run) : Type 0 where
  pub ordered : Sublist (r.got ++ waiting id r.bus.subs) r.log
  pub fits : Fits r.bus.subs
  pub fresh : Fresh r.bus.next r.bus.subs

waiting_new :
    (id : ℕ) (n : ℤ) (r : Run)
    → Fresh r.bus.next r.bus.subs
    → waiting id (subscribe n r.bus).1.subs ≡ waiting id r.bus.subs
unfolding waiting subscribe
waiting_new id n r f = ground (arith, waiting-Fresh id r.bus.next r.bus.subs f)

published :
    (id : ℕ) (e : Event) (r : Run)
    → Sublist (r.got ++ waiting id r.bus.subs) r.log
    → Sublist (r.got ++ waiting id (offer_all e r.bus.subs)) (r.log ++ (e ∷ []))
published id e r h = elim (waiting_offer id e r.bus.subs) [
  | inl k ↦
      subst (λ w. Sublist (r.got ++ w) (r.log ++ (e ∷ []))) (sym k)
        (Sublist-later (r.got ++ waiting id r.bus.subs) r.log e h)
  | inr k ↦
      subst (λ w. Sublist w (r.log ++ (e ∷ [])))
        (sym (ap (λ w. r.got ++ w) k ∙ sym (append_assoc r.got (waiting id r.bus.subs) (e ∷ []))))
        (Sublist-both (r.got ++ waiting id r.bus.subs) r.log e h)
]

sent :
    (id j : ℕ) (e : Event) (r : Run)
    → Sublist (r.got ++ waiting id r.bus.subs) r.log
    → Sublist
        (r.got ++ waiting id (offer_one e j r.bus.subs))
        (if j == id then r.log ++ (e ∷ []) else r.log)
sent id j e r h = elim (waiting-offer_one id j e r.bus.subs) [
  | inl k ↦
      subst (λ w. Sublist (r.got ++ w) (if j == id then r.log ++ (e ∷ []) else r.log)) (sym k)
        (if_either (j == id))
  | inr (i, k) ↦
      subst (λ w. Sublist w (if j == id then r.log ++ (e ∷ []) else r.log))
        (sym (ap (λ w. r.got ++ w) k ∙ sym (append_assoc r.got (waiting id r.bus.subs) (e ∷ []))))
        (subst (λ l. Sublist ((r.got ++ waiting id r.bus.subs) ++ (e ∷ [])) l) (ground arith)
          (Sublist-both (r.got ++ waiting id r.bus.subs) r.log e h))
]
  where
    if_either :
        (b : Bool)
        → Sublist (r.got ++ waiting id r.bus.subs) (if b then r.log ++ (e ∷ []) else r.log)
    if_either true = Sublist-later (r.got ++ waiting id r.bus.subs) r.log e h
    if_either false = h

taken_one :
    (id j : ℕ) (r : Run)
    → (if j == id then append_some r.got (receive j r.bus.subs).0 else r.got)
        ++ waiting id (receive j r.bus.subs).1
      ≡ r.got ++ waiting id r.bus.subs
taken_one id j r = elim (order j id) [
  | inl e ↦ ground (arith, e, received id r.got r.bus.subs)
  | inr n ↦ ground (arith, n, waiting_other id j r.bus.subs n)
]
  where
    order : (m n : ℕ) → (m ≡ n) ⊎ (m ≢ n)
    order m n = omega arith

step-IsOrdered : (id : ℕ) (s : Step) (r : Run) → IsOrdered id r → IsOrdered id (step id s r)
unfolding step subscribe unsubscribe publish
step-IsOrdered id (subscribes n) r h = record {
  ordered = subst (λ x. Sublist (r.got ++ x) r.log) (sym (waiting_new id n r h.fresh)) h.ordered;
  fits = (omega arith, h.fits);
  fresh = (omega arith, h.fresh);
}
step-IsOrdered id (unsubscribes j) r h = record {
  ordered =
      subst (λ w. Sublist (r.got ++ w) r.log) (sym (waiting-closed id j r.bus.subs)) h.ordered;
  fits = closed-Fits j r.bus.subs h.fits;
  fresh = closed-Fresh r.bus.next j r.bus.subs h.fresh;
}
step-IsOrdered id (publishes e now) r h = record {
  ordered = published id (record e { at = stamped e.at now }) r h.ordered;
  fits = offer-Fits _ r.bus.subs h.fits;
  fresh = offer-Fresh r.bus.next _ r.bus.subs h.fresh;
}
step-IsOrdered id (sends e j) r h = record {
  ordered = sent id j e r h.ordered;
  fits = offer_one-Fits e j r.bus.subs h.fits;
  fresh = offer_one-Fresh r.bus.next e j r.bus.subs h.fresh;
}
step-IsOrdered id (receives j) r h = record {
  ordered = subst (λ x. Sublist x r.log) (sym (taken_one id j r)) h.ordered;
  fits = receive-Fits j r.bus.subs h.fits;
  fresh = receive-Fresh r.bus.next j r.bus.subs h.fresh;
}

run-IsOrdered : (id : ℕ) (ss : List Step) (r : Run) → IsOrdered id r → IsOrdered id (run id ss r)
unfolding run
run-IsOrdered id [] r h = h
run-IsOrdered id (s ∷ ss) r h = run-IsOrdered id ss (step id s r) (step-IsOrdered id s r h)

abbrev pub nothing : Run
nothing = record { bus = new_bus; log = []; got = [] }

-- Whatever is subscribed, published, received and unsubscribed, in any order, with overlapping
-- publications and with receives after the unsubscription, the events received from a channel, but for
-- the zero values that a closed channel delivers, and then those that wait in it, are events that were
-- published, in the order in which they were sent to it and each at most once; and no buffer holds
-- more than its room.
pub channel_order_kept : (id : ℕ) (ss : List Step) → IsOrdered id (run id ss nothing)
unfolding waiting
channel_order_kept id ss =
    run-IsOrdered id ss nothing (record { ordered = none_left; fits = tt; fresh = tt })
