-- ===== src/Events.antt =====
-- internal/events/bus.go: the bus of progress events. A subscriber is its channel: the events that
-- wait in the buffer, the room of the buffer, and whether the channel is subscribed, that is open. Subscribe and the
-- unsubscription hold the lock, so they are single steps; Publish holds it shared, so its sends to
-- the channels are steps that the sends of another Publish may come between; a receive is a step of
-- its own.
mod Sublists
mod Waiting
pub mod Order
use dero_ghost_drop.Base.{
  ℕ, suc, Bool, true, false, Option, none, some, List, [], ◌∷◌, ◌++◌, Bytes, codes, ltb, ◌==◌,
  length, ◌&&◌, if◌then◌else◌,
}
use dero_ghost_drop.Base.Int.{ℤ, pos, negsuc}

pub record Event : Type 0 where
  pub kind : Bytes
  pub drop_id : Bytes
  pub done : ℤ
  pub total : ℤ
  pub message : Bytes
  pub at : Option ℕ

-- `id` tells channels apart.
pub record Channel : Type 0 where
  pub id : ℕ
  pub room : ℕ
  pub queue : List Event
  pub subscribed : Bool

-- The channels, those that are closed included, and the next id.
pub record Bus : Type 0 where
  pub subs : List Channel
  pub next : ℕ

abbrev pub new_bus : Bus
new_bus = record { subs = []; next = 0 }

-- buffer <= 0 means 32
unfoldable pub buffer_size : ℤ → ℕ
buffer_size (negsuc n) = 32
buffer_size (pos n) = if n == 0 then 32 else n

unfoldable pub subscribe : ℤ → Bus → ℕ × Bus
subscribe buffer b = (
  b.next,
  record {
    subs =
        record { id = b.next; room = buffer_size buffer; queue = []; subscribed = true } ∷ b.subs;
    next = suc b.next;
  },
)

unfoldable pub closed : ℕ → List Channel → List Channel
closed id [] = []
closed id (c ∷ cs) =
    let rest = closed id cs in if c.id == id then record c { subscribed = false } ∷ cs else c ∷ rest

-- The function that Subscribe returns; a second call does nothing. What waits in the channel can
-- still be received.
unfoldable pub unsubscribe : ℕ → Bus → Bus
unsubscribe id b = record b { subs = closed id b.subs }

-- select { case ch <- e: default: }, on a channel of b.subs
unfoldable pub offer : Event → Channel → Channel
offer e c =
    if c.subscribed && ltb (length c.queue) c.room
    then record c { queue = c.queue ++ (e ∷ []) }
    else c

unfoldable pub offer_all : Event → List Channel → List Channel
offer_all e [] = []
offer_all e (c ∷ cs) = offer e c ∷ offer_all e cs

-- One round of the loop of Publish.
unfoldable pub offer_one : Event → ℕ → List Channel → List Channel
offer_one e id [] = []
offer_one e id (c ∷ cs) =
    let rest = offer_one e id cs in if c.id == id then offer e c ∷ cs else c ∷ rest

unfoldable pub stamped : Option ℕ → ℕ → Option ℕ
stamped none now = some now
stamped (some t) now = some t

-- Publish, at the time `now`, with no other Publish in between
unfoldable pub publish : Event → ℕ → Bus → Bus
publish e now b = record b { subs = offer_all (record e { at = stamped e.at now }) b.subs }

-- Progress and Status
unfoldable pub progress : Bytes → ℤ → ℤ → ℕ → Bus → Bus
progress drop_id done total now b =
    publish
      (record {
        kind = codes "progress";
        drop_id = drop_id;
        done = done;
        total = total;
        message = [];
        at = none;
      })
      now b

unfoldable pub status : Bytes → Bytes → Bytes → ℕ → Bus → Bus
status kind drop_id message now b =
    publish
      (record {
        kind = kind;
        drop_id = drop_id;
        done = pos 0;
        total = pos 0;
        message = message;
        at = none;
      })
      now b

-- The zero value of Event
abbrev pub zero_event : Event
zero_event = record {
  kind = [];
  drop_id = [];
  done = pos 0;
  total = pos 0;
  message = [];
  at = none;
}

-- e, ok := <-ch, or `none` where it blocks: a closed channel with an empty buffer delivers the zero
-- value, with false.
unfoldable pub taken : Channel → Option (Event × Bool) × Channel
taken c = elim c.queue [
  | [] ↦ if c.subscribed then (none, c) else (some (zero_event, false), c)
  | e ∷ es ↦ (some (e, true), record c { queue = es })
]

unfoldable pub receive : ℕ → List Channel → Option (Event × Bool) × List Channel
receive id [] = (none, [])
receive id (c ∷ cs) =
    let rest = receive id cs in
    let t = taken c in if c.id == id then (t.0, t.1 ∷ cs) else (rest.0, c ∷ rest.1)
