-- ===== src/Examples/OnEvents.antt =====
-- A channel with room for one event.
use dero_ghost_drop.Base.{none, List, [], ◌∷◌, codes}
use dero_ghost_drop.Base.Int.{pos}
use dero_ghost_drop.Events.{Event}
use dero_ghost_drop.Events.Order.{
  Step, subscribes, publishes, sends, receives, unsubscribes, run, nothing, IsOrdered,
  channel_order_kept,
}

abbrev event : Event
event = record {
  kind = codes "progress";
  drop_id = codes "a1";
  done = pos 1;
  total = pos 2;
  message = [];
  at = none;
}

abbrev steps : List Step
steps =
    subscribes (pos 1)
    ∷ publishes event 5
    ∷ publishes event 6
    ∷ receives 0
    ∷ publishes event 7
    ∷ unsubscribes 0
    ∷ sends event 0
    ∷ receives 0
    ∷ receives 0
    ∷ []

channel_order_kept_example : IsOrdered 0 (run 0 steps nothing)
channel_order_kept_example = channel_order_kept 0 steps
