-- ===== src/Database.antt =====
-- internal/database/database.go: the tables, and the statements that read and write them. An
-- argument `fails` says that the database refuses the statement, which then changes nothing.
pub mod History
pub mod Consistent
pub mod Migrate
pub mod Delete
pub mod Listing
use dero_ghost_drop.Base.{
  ℕ, suc, ◌*◌, ◌/◌, Bool, true, false, ◌||◌, Option, none, some, List, [], ◌∷◌, ◌++◌, Bytes, codes,
  bytes_eq, ltb, Map, lookup, insert, remove, if◌then◌else◌,
}
use dero_ghost_drop.Base.Int.{ℤ}

pub data Error : Type 0 where
  not_found failed bad_trust : Error

pub data Result (A : Type 0) : Type 0 where
  ok : A → Result A
  err : Error → Result A

-- Drop. Times are in nanoseconds.
pub record Drop : Type 0 where
  pub id : Bytes
  pub mode : Bytes
  pub recipient : Bytes
  pub created_at : ℕ
  pub expires_at : ℕ
  pub status : Bytes
  pub payload_hash : Bytes
  pub size : ℤ
  pub storage_ref : Bytes
  pub verified : Bool

pub record Event : Type 0 where
  pub id : ℕ
  pub drop_id : Bytes
  pub event : Bytes
  pub at : ℕ
  pub detail : Bytes

-- A contact never seen has the zero time, `none`.
pub record Contact : Type 0 where
  pub name : Bytes
  pub address : Bytes
  pub trust : Bytes
  pub last_seen : Option ℕ

-- The tables; `next_id` is the counter of AUTOINCREMENT.
pub record Db : Type 0 where
  pub drops : Map Drop
  pub history : List Event
  pub next_id : ℕ
  pub contacts : Map Contact

-- Parsing what was formatted as RFC 3339 gives whole seconds.
unfoldable pub rfc3339 : ℕ → ℕ
rfc3339 t = t / 1000000000 * 1000000000

unfoldable pub row_of : Drop → Drop
row_of d = record d { created_at = rfc3339 d.created_at; expires_at = rfc3339 d.expires_at }

-- UpsertDrop
unfoldable pub upsert_drop : Bool → Drop → Db → Result (Unit {0}) × Db
upsert_drop fails d s =
    if fails then (err failed, s) else (ok tt, record s { drops = insert d.id (row_of d) s.drops })

unfoldable pub found : {A : Type 0} → Option A → Result A
found none = err not_found
found (some a) = ok a

-- GetDrop with scanDrop
unfoldable pub get_drop : Bool → Bytes → Db → Result Drop
get_drop fails id s = if fails then err failed else found (lookup id s.drops)

-- UPDATE drops SET ... WHERE id=?
unfoldable pub update_row : (Drop → Drop) → Bytes → Option Drop → Db → Result (Unit {0}) × Db
update_row change id none s = (err not_found, s)
update_row change id (some d) s = (ok tt, record s { drops = insert id (change d) s.drops })

unfoldable pub update_status : Bool → Bytes → Bytes → Db → Result (Unit {0}) × Db
update_status fails id status s =
    if fails
    then (err failed, s)
    else update_row (λ d. record d { status = status }) id (lookup id s.drops) s

unfoldable pub set_verified : Bool → Bytes → Bool → Db → Result (Unit {0}) × Db
set_verified fails id v s =
    if fails
    then (err failed, s)
    else update_row (λ d. record d { verified = v }) id (lookup id s.drops) s

-- DELETE FROM history WHERE drop_id=?
unfoldable pub without : Bytes → List Event → List Event
without id [] = []
without id (e ∷ es) = let rest = without id es in if bytes_eq e.drop_id id then rest else e ∷ rest

-- SELECT ... FROM history WHERE drop_id=?
unfoldable pub only : Bytes → List Event → List Event
only id [] = []
only id (e ∷ es) = let rest = only id es in if bytes_eq e.drop_id id then e ∷ rest else rest

-- Whether a deletion has affected a row.
unfoldable pub affected : {A : Type 0} → Option A → Result (Unit {0})
affected none = err not_found
affected (some a) = ok tt

-- DeleteDrop: two statements, each of which may fail.
unfoldable pub delete_drop : Bool → Bool → Bytes → Db → Result (Unit {0}) × Db
delete_drop history_fails drops_fails id s =
    let t = record s { history = without id s.history } in
    if history_fails
    then (err failed, s)
    else if drops_fails
    then (err failed, t)
    else (affected (lookup id s.drops), record t { drops = remove id s.drops })

-- AddEvent, at the time `now`
unfoldable pub add_event : Bool → Bytes → Bytes → Bytes → ℕ → Db → Result (Unit {0}) × Db
add_event fails drop_id event detail now s =
    let e : Event = record {
      id = s.next_id;
      drop_id = drop_id;
      event = event;
      at = rfc3339 now;
      detail = detail;
    } in
    if fails
    then (err failed, s)
    else (ok tt, record s { history = s.history ++ (e ∷ []); next_id = suc s.next_id })

-- ORDER BY id ASC
unfoldable pub insert_by_id : Event → List Event → List Event
insert_by_id x [] = x ∷ []
insert_by_id x (e ∷ es) =
    let rest = insert_by_id x es in if ltb e.id x.id then e ∷ rest else x ∷ e ∷ es

unfoldable pub order_by_id : List Event → List Event
order_by_id [] = []
order_by_id (e ∷ es) = insert_by_id e (order_by_id es)

-- ListEvents
unfoldable pub list_events : Bool → Bytes → Db → Result (List Event)
list_events fails drop_id s =
    if fails then err failed else ok (order_by_id (only drop_id s.history))

unfoldable pub valid_trust : Bytes → Bool
valid_trust t =
    bytes_eq t (codes "UNKNOWN")
    || bytes_eq t (codes "KNOWN")
    || bytes_eq t (codes "TRUSTED")
    || bytes_eq t (codes "BLOCKED")

unfoldable pub last_seen_row : Option ℕ → Option ℕ
last_seen_row none = none
last_seen_row (some t) = some (rfc3339 t)

-- PutContact
unfoldable pub put_contact : Bool → Contact → Db → Result (Unit {0}) × Db
put_contact fails c s =
    if valid_trust c.trust
    then if fails then (err failed, s) else (
      ok tt,
      record s {
        contacts = insert c.name (record c { last_seen = last_seen_row c.last_seen }) s.contacts;
      },
    )
    else (err bad_trust, s)

-- GetContact
unfoldable pub get_contact : Bool → Bytes → Db → Result Contact
get_contact fails name s = if fails then err failed else found (lookup name s.contacts)

-- DeleteContact
unfoldable pub delete_contact : Bool → Bytes → Db → Result (Unit {0}) × Db
delete_contact fails name s =
    if fails
    then (err failed, s)
    else (affected (lookup name s.contacts), record s { contacts = remove name s.contacts })
