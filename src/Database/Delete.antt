-- ===== src/Database/Delete.antt =====
-- DeleteDrop of internal/database/database.go.
use dero_ghost_drop.Base.{
  ◌≡◌, refl, false, List, [], ◌∷◌, arith, Bytes, bytes_eq, bytes_eq_iff, lookup, lookup-remove,
  if◌then◌else◌,
}
use dero_ghost_drop.Database.{
  Event, Db, ok, err, not_found, found, affected, delete_drop, get_drop, list_events, order_by_id,
  without, only,
}

only-without :
    (id j : Bytes) (es : List Event)
    → only j (without id es) ≡ (if bytes_eq id j then [] else only j es)
unfolding only without
only-without id j [] = ground arith
only-without id j (e ∷ es) = ground (
  arith,
  only-without id j es,
  bytes_eq_iff id j,
  bytes_eq_iff e.drop_id id,
  bytes_eq_iff e.drop_id j,
)

-- DeleteDrop on a working database removes the drop's row and all of its history, and says whether
-- there was a row; the row and the history of every other drop, and the contacts, stay.
pub delete_drop_isolated :
    (id j : Bytes) (s : Db)
    → ((delete_drop false false id s).0 ≡ affected (lookup id s.drops))
      × (get_drop false j (delete_drop false false id s).1
          ≡ (if bytes_eq id j then err not_found else get_drop false j s))
      × (list_events false j (delete_drop false false id s).1
          ≡ (if bytes_eq id j then ok [] else list_events false j s))
      × ((delete_drop false false id s).1.contacts ≡ s.contacts)
unfolding delete_drop get_drop list_events found order_by_id
delete_drop_isolated id j s = (
  refl,
  ground (arith, lookup-remove id j s.drops),
  ground (arith, only-without id j s.history),
  refl,
)
