-- ===== src/Examples/OnDatabase.antt =====
-- A database with two drops, and a database file.
use dero_ghost_drop.Base.{
  ◌≡◌, ◌⊎◌, refl, Bool, true, false, Option, none, some, List, [], ◌∷◌, ◌++◌, Bytes, codes, lookup,
  bytes_eq, if◌then◌else◌,
}
use dero_ghost_drop.Base.Int.{pos}
use dero_ghost_drop.Database.{
  Db, Drop, Event, ok, err, not_found, affected, delete_drop, get_drop, list_events, add_event,
  rfc3339,
}
use dero_ghost_drop.Database.Consistent.{Call, upsert, event, delete, after_all, empty}
use dero_ghost_drop.Database.Listing.{Below, list_events-add_event}
use dero_ghost_drop.Database.Delete.{delete_drop_isolated}
use dero_ghost_drop.Database.Migrate.{Files, Faults, copies, stops_at, migrate, migrate_keeps}

abbrev row : Bytes → Drop
row i = record {
  id = i;
  mode = codes "direct";
  recipient = [];
  created_at = 5;
  expires_at = 100;
  status = codes "READY";
  payload_hash = [];
  size = pos 3;
  storage_ref = [];
  verified = false;
}

abbrev calls : List Call
calls =
    upsert false (row (codes "a"))
    ∷ event false (codes "a") (codes "created") [] 5
    ∷ event true (codes "b") (codes "created") [] 6
    ∷ event false (codes "b") (codes "created") [] 7
    ∷ delete false true (codes "a")
    ∷ []

list_events-add_event_example :
    let s = after_all calls empty in
    let x : Event = record {
      id = s.next_id;
      drop_id = codes "b";
      event = codes "failed";
      at = rfc3339 8;
      detail = [];
    } in
    (es : List Event) × (list_events false (codes "b") s ≡ ok es)
    × Below x.id es
    × (list_events false (codes "b") (add_event false (codes "b") (codes "failed") [] 8 s).1
        ≡ ok (if bytes_eq (codes "b") (codes "b") then es ++ (x ∷ []) else es))
list_events-add_event_example =
    list_events-add_event calls (codes "b") (codes "b") (codes "failed") [] 8

abbrev filled : Db
filled = after_all calls empty

delete_drop_isolated_example :
    ((delete_drop false false (codes "a") filled).0 ≡ affected (lookup (codes "a") filled.drops))
    × (get_drop false (codes "b") (delete_drop false false (codes "a") filled).1 ≡ (
        if bytes_eq (codes "a") (codes "b")
        then err not_found
        else get_drop false (codes "b") filled))
    × (list_events false (codes "b") (delete_drop false false (codes "a") filled).1 ≡ (
        if bytes_eq (codes "a") (codes "b") then ok [] else list_events false (codes "b") filled))
    × ((delete_drop false false (codes "a") filled).1.contacts ≡ filled.contacts)
delete_drop_isolated_example = delete_drop_isolated (codes "a") (codes "b") filled

-- A schema that fails half-way.
abbrev broken : Option Bytes → Bool × Bytes
broken old = (false, codes "half")

abbrev before : Files
before = record { main = some (codes "old"); backup = none }

-- The copy back stops after two bytes.
abbrev full_disk : Faults
full_disk = record { save = copies; restore = stops_at 2 }

migrate_keeps_example :
    ((migrate broken (λ raw. true) full_disk before).1.main ≡ some (codes "old"))
    ⊎ ((migrate broken (λ raw. true) full_disk before).1.backup ≡ some (codes "old"))
migrate_keeps_example = migrate_keeps broken (λ raw. true) full_disk before (codes "old") refl
