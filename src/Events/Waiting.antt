-- ===== src/Events/Waiting.antt =====
-- The channels of internal/events/bus.go under the operations of the bus.
use mathlib.Core.List.{append_assoc}
use dero_ghost_drop.Base.{
  ℕ, ◌≤◌, ◌<◌, ◌≡◌, ◌≢◌, ◌⊎◌, inl, refl, Option, Bool, true, false, none, some, List, [], ◌∷◌, ◌++◌,
  arith, ◌==◌, length, length-append, if◌then◌else◌,
}
use dero_ghost_drop.Events.{Event, Channel, closed, offer, offer_all, offer_one, taken, receive}

-- A received event is one that was sent; the zero value of a closed channel is not.
unfoldable pub append_some : List Event → Option (Event × Bool) → List Event
append_some es none = es
append_some es (some (e, true)) = es ++ (e ∷ [])
append_some es (some (e, false)) = es

-- The events that wait in the channel `id`.
unfoldable pub waiting : ℕ → List Channel → List Event
waiting id [] = []
waiting id (c ∷ cs) = if c.id == id then c.queue else waiting id cs

-- No buffer holds more than its room.
abbrev pub Fits : List Channel → Type 0
Fits [] = Unit
Fits (c ∷ cs) = (length c.queue ≤ c.room) × Fits cs

-- Ids are below the next one, and each stands once.
abbrev pub Fresh : ℕ → List Channel → Type 0
Fresh n [] = Unit
Fresh n (c ∷ cs) = (c.id < n) × Fresh c.id cs

pub waiting_offer :
    (id : ℕ) (e : Event) (cs : List Channel)
    → (waiting id (offer_all e cs) ≡ waiting id cs)
      ⊎ (waiting id (offer_all e cs) ≡ waiting id cs ++ (e ∷ []))
unfolding waiting offer_all offer
waiting_offer id e [] = inl refl
waiting_offer id e (c ∷ cs) = ground (arith, waiting_offer id e cs)

pub waiting-offer_one :
    (id j : ℕ) (e : Event) (cs : List Channel)
    → (waiting id (offer_one e j cs) ≡ waiting id cs)
      ⊎ ((j ≡ id) × (waiting id (offer_one e j cs) ≡ waiting id cs ++ (e ∷ [])))
unfolding waiting offer_one offer
waiting-offer_one id j e [] = inl refl
waiting-offer_one id j e (c ∷ cs) = ground (arith, waiting-offer_one id j e cs)

pub waiting-closed : (id j : ℕ) (cs : List Channel) → waiting id (closed j cs) ≡ waiting id cs
unfolding waiting closed
waiting-closed id j [] = refl
waiting-closed id j (c ∷ cs) = ground (arith, waiting-closed id j cs)

pub waiting-Fresh : (id n : ℕ) (cs : List Channel) → Fresh n cs → n ≤ id → waiting id cs ≡ []
unfolding waiting
waiting-Fresh id n [] f l = refl
waiting-Fresh id n (c ∷ cs) f l = ground (arith, waiting-Fresh id c.id cs)

pub waiting_other :
    (id j : ℕ) (cs : List Channel) → j ≢ id → waiting id (receive j cs).1 ≡ waiting id cs
unfolding waiting receive taken
waiting_other id j [] n = refl
waiting_other id j (c ∷ cs) n = ground (arith, waiting_other id j cs n)

pub received :
    (id : ℕ) (got : List Event) (cs : List Channel)
    → append_some got (receive id cs).0 ++ waiting id (receive id cs).1 ≡ got ++ waiting id cs
unfolding waiting receive taken append_some
received id got [] = refl
received id got (c ∷ cs) = go c.queue refl (received id got cs)
  where
    go :
        (q : List Event)
        → c.queue ≡ q
        → append_some got (receive id cs).0 ++ waiting id (receive id cs).1 ≡ got ++ waiting id cs
        → append_some got (receive id (c ∷ cs)).0 ++ waiting id (receive id (c ∷ cs)).1
          ≡ got ++ waiting id (c ∷ cs)
    go [] i h = quiet c.subscribed refl
      where
        quiet :
            (b : Bool)
            → c.subscribed ≡ b
            → append_some got (receive id (c ∷ cs)).0 ++ waiting id (receive id (c ∷ cs)).1
              ≡ got ++ waiting id (c ∷ cs)
        quiet true o = ground arith
        quiet false o = ground arith
    go (e ∷ es) i h = ground (arith, append_assoc got (e ∷ []) es)

pub offer-Fits : (e : Event) (cs : List Channel) → Fits cs → Fits (offer_all e cs)
unfolding offer_all offer
offer-Fits e [] f = tt
offer-Fits e (c ∷ cs) f = (ground (arith, f.0, length-append c.queue (e ∷ [])), offer-Fits e cs f.1)

pub offer_one-Fits : (e : Event) (j : ℕ) (cs : List Channel) → Fits cs → Fits (offer_one e j cs)
unfolding offer_one offer
offer_one-Fits e j [] f = tt
offer_one-Fits e j (c ∷ cs) f =
    ground (arith, offer_one-Fits e j cs f.1, length-append c.queue (e ∷ []))

pub closed-Fits : (j : ℕ) (cs : List Channel) → Fits cs → Fits (closed j cs)
unfolding closed
closed-Fits j [] f = tt
closed-Fits j (c ∷ cs) f = ground (arith, closed-Fits j cs f.1)

pub receive-Fits : (j : ℕ) (cs : List Channel) → Fits cs → Fits (receive j cs).1
unfolding receive taken
receive-Fits j [] f = tt
receive-Fits j (c ∷ cs) f = ground (arith, receive-Fits j cs f.1)

pub Fresh-lower : (m n : ℕ) (cs : List Channel) → m ≤ n → Fresh m cs → Fresh n cs
Fresh-lower m n [] l f = tt
Fresh-lower m n (c ∷ cs) l f = (omega arith, f.1)

pub offer-Fresh : (n : ℕ) (e : Event) (cs : List Channel) → Fresh n cs → Fresh n (offer_all e cs)
unfolding offer_all offer
offer-Fresh n e [] f = tt
offer-Fresh n e (c ∷ cs) f = ground (arith, offer-Fresh c.id e cs f.1)

pub offer_one-Fresh :
    (n : ℕ) (e : Event) (j : ℕ) (cs : List Channel) → Fresh n cs → Fresh n (offer_one e j cs)
unfolding offer_one offer
offer_one-Fresh n e j [] f = tt
offer_one-Fresh n e j (c ∷ cs) f = ground (arith, offer_one-Fresh c.id e j cs f.1)

pub closed-Fresh : (n j : ℕ) (cs : List Channel) → Fresh n cs → Fresh n (closed j cs)
unfolding closed
closed-Fresh n j [] f = tt
closed-Fresh n j (c ∷ cs) f =
    ground (arith, closed-Fresh c.id j cs f.1, Fresh-lower c.id n (closed j cs))

pub receive-Fresh : (n j : ℕ) (cs : List Channel) → Fresh n cs → Fresh n (receive j cs).1
unfolding receive taken
receive-Fresh n j [] f = tt
receive-Fresh n j (c ∷ cs) f = ground (arith, receive-Fresh c.id j cs f.1)
