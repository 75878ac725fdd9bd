-- ===== src/Database/Listing.antt =====
-- AddEvent and ListEvents of internal/database/database.go.
use mathlib.Core.List.{append-nil}
use dero_ghost_drop.Base.{
  ℕ, suc, ◌≤◌, ◌<◌, ◌≡◌, refl, ap, ◌∙◌, Bool, true, false, List, [], ◌∷◌, ◌++◌, arith, Bytes,
  bytes_eq, if◌then◌else◌,
}
use dero_ghost_drop.Database.{
  Event, Db, ok, rfc3339, add_event, only, insert_by_id, order_by_id, list_events,
}
use dero_ghost_drop.Database.History.{Ascending}
use dero_ghost_drop.Database.Consistent.{Call, after_all, empty, after_all-Consistent}

-- Every event has an id below `n`.
abbrev pub Below : ℕ → List Event → Type 0
Below n [] = Unit
Below n (e ∷ es) = (e.id < n) × Below n es

Ascending-Below : (lo hi : ℕ) (es : List Event) → Ascending lo es hi → (lo ≤ hi) × Below hi es
Ascending-Below lo hi [] a = (a, tt)
Ascending-Below lo hi (e ∷ es) a =
    let (l, b) = Ascending-Below (suc e.id) hi es a.1 in (omega arith, (omega arith, b))

only-Below : (id : Bytes) (n : ℕ) (es : List Event) → Below n es → Below n (only id es)
unfolding only
only-Below id n [] b = tt
only-Below id n (e ∷ es) b = ground (arith, only-Below id n es b.1)

insert_by_id-Below :
    (n : ℕ) (x : Event) (es : List Event) → x.id < n → Below n es → Below n (insert_by_id x es)
unfolding insert_by_id
insert_by_id-Below n x [] l b = (l, tt)
insert_by_id-Below n x (e ∷ es) l b = ground (arith, insert_by_id-Below n x es l b.1)

order_by_id-Below : (n : ℕ) (es : List Event) → Below n es → Below n (order_by_id es)
unfolding order_by_id
order_by_id-Below n [] b = tt
order_by_id-Below n (e ∷ es) b =
    insert_by_id-Below n e (order_by_id es) b.0 (order_by_id-Below n es b.1)

only-append :
    (id : Bytes) (es : List Event) (x : Event)
    → only id (es ++ (x ∷ [])) ≡ only id es ++ (if bytes_eq x.drop_id id then x ∷ [] else [])
unfolding only
only-append id [] x = ground arith
only-append id (e ∷ es) x = ground (arith, only-append id es x)

insert_by_id-append :
    (x y : Event) (es : List Event)
    → x.id < y.id
    → insert_by_id x (es ++ (y ∷ [])) ≡ insert_by_id x es ++ (y ∷ [])
unfolding insert_by_id
insert_by_id-append x y [] l = ground arith
insert_by_id-append x y (e ∷ es) l = ground (arith, insert_by_id-append x y es l)

-- The newest event sorts last.
order_by_id-append :
    (es : List Event) (x : Event)
    → Below x.id es
    → order_by_id (es ++ (x ∷ [])) ≡ order_by_id es ++ (x ∷ [])
unfolding order_by_id insert_by_id
order_by_id-append [] x b = refl
order_by_id-append (e ∷ es) x b =
    ap (insert_by_id e) (order_by_id-append es x b.1) ∙ insert_by_id-append e x (order_by_id es) b.0

-- After any calls on an empty database, some of which may have failed, let AddEvent succeed. ListEvents
-- for its drop then gives what it gave before and the new event at the end, with the time of the call
-- in whole seconds and an id above those of all events before it; for any other drop it gives what it
-- gave before.
pub list_events-add_event :
    (calls : List Call) (j drop_id event detail : Bytes) (now : ℕ)
    → let s = after_all calls empty in
      let x : Event = record {
        id = s.next_id;
        drop_id = drop_id;
        event = event;
        at = rfc3339 now;
        detail = detail;
      } in
      (es : List Event) × (list_events false j s ≡ ok es)
      × Below x.id es
      × (list_events false j (add_event false drop_id event detail now s).1
          ≡ ok (if bytes_eq drop_id j then es ++ (x ∷ []) else es))
unfolding list_events add_event
list_events-add_event calls j drop_id event detail now = go (bytes_eq drop_id j) refl
  where
    s : Db
    s = after_all calls empty

    x : Event
    x = record {
      id = s.next_id;
      drop_id = drop_id;
      event = event;
      at = rfc3339 now;
      detail = detail;
    }

    below : Below s.next_id (only j s.history)
    below =
        only-Below j s.next_id s.history
          (Ascending-Below 1 s.next_id s.history (after_all-Consistent calls).in_order).1

    go :
        (b : Bool)
        → bytes_eq drop_id j ≡ b
        → (es : List Event) × (list_events false j s ≡ ok es)
          × Below x.id es
          × (list_events false j (add_event false drop_id event detail now s).1
              ≡ ok (if b then es ++ (x ∷ []) else es))
    go b e = (
      order_by_id (only j s.history),
      refl,
      order_by_id-Below s.next_id (only j s.history) below,
      ap (λ es. ok (order_by_id es)) (only-append j s.history x) ∙ added b e,
    )
      where
        added :
            (c : Bool)
            → bytes_eq drop_id j ≡ c
            → ok (order_by_id (only j s.history ++ (if bytes_eq drop_id j then x ∷ [] else [])))
              ≡ ok (
                  if c
                  then order_by_id (only j s.history) ++ (x ∷ [])
                  else order_by_id (only j s.history))
        added true k = rw k (ap ok (order_by_id-append (only j s.history) x below))
        added false k = rw (k, append-nil (only j s.history)) refl
