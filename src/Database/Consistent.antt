-- ===== src/Database/Consistent.antt =====
-- The tables of internal/database/database.go over a sequence of calls, some of which fail.
use dero_ghost_drop.Base.{
  ℕ, suc, ◌≡◌, refl, Bool, true, false, Option, none, some, List, [], ◌∷◌, ◌++◌, arith, Bytes,
  bytes_eq_iff, Map, lookup, insert, remove, lookup-insert, lookup-remove, if_state_elim, ◌∙◌,
  Unique, insert-Unique, remove-Unique,
}
use dero_ghost_drop.Database.{
  Drop, Event, Contact, Db, update_row, row_of, rfc3339, last_seen_row, valid_trust, upsert_drop,
  update_status, set_verified, delete_drop, add_event, put_contact, delete_contact, without,
}
use dero_ghost_drop.Database.History.{Ascending, Ascending-append, Ascending-without}

pub data Call : Type 0 where
  upsert : Bool → Drop → Call
  status : Bool → Bytes → Bytes → Call
  verify : Bool → Bytes → Bool → Call
  delete : Bool → Bool → Bytes → Call
  event : Bool → Bytes → Bytes → Bytes → ℕ → Call
  put : Bool → Contact → Call
  forget : Bool → Bytes → Call

unfoldable pub after : Call → Db → Db
after (upsert f d) s = (upsert_drop f d s).1
after (status f id t) s = (update_status f id t s).1
after (verify f id v) s = (set_verified f id v s).1
after (delete f g id) s = (delete_drop f g id s).1
after (event f id e d now) s = (add_event f id e d now s).1
after (put f c) s = (put_contact f c s).1
after (forget f n) s = (delete_contact f n s).1

unfoldable pub after_all : List Call → Db → Db
after_all [] s = s
after_all (c ∷ cs) s = after_all cs (after c s)

abbrev pub empty : Db
empty = record { drops = []; history = []; next_id = 1; contacts = [] }

-- A row stands once, under its own key, and the ids of the history ascend.
pub record IsConsistent (s : Db) : Type 0 where
  pub drops_once : Unique s.drops
  pub own_key : (id : Bytes) (d : Drop) → lookup id s.drops ≡ some d → d.id ≡ id
  pub contacts_once : Unique s.contacts
  pub own_name : (name : Bytes) (c : Contact) → lookup name s.contacts ≡ some c → c.name ≡ name
  pub in_order : Ascending 1 s.history s.next_id

module _ {V : Type 0} (key : V → Bytes) where
  abbrev pub Own : Map V → Type 0
  Own m = (k : Bytes) (v : V) → lookup k m ≡ some v → key v ≡ k

  insert-Own : (k : Bytes) (v : V) (m : Map V) → key v ≡ k → Own m → Own (insert k v m)
  insert-Own k v m h own j x e = ground (arith, lookup-insert k j v m, bytes_eq_iff k j, own j x)

  remove-Own : (k : Bytes) (m : Map V) → Own m → Own (remove k m)
  remove-Own k m own j x e = ground (arith, lookup-remove k j m, own j x)

set_drops :
    {s : Db} (m : Map Drop)
    → IsConsistent s
    → Unique m
    → Own (λ d. d.id) m
    → IsConsistent (record s { drops = m })
set_drops m c u o = record {
  drops_once = u;
  own_key = o;
  contacts_once = c.contacts_once;
  own_name = c.own_name;
  in_order = c.in_order;
}

set_contacts :
    {s : Db} (m : Map Contact)
    → IsConsistent s
    → Unique m
    → Own (λ d. d.name) m
    → IsConsistent (record s { contacts = m })
set_contacts m c u o = record {
  drops_once = c.drops_once;
  own_key = c.own_key;
  contacts_once = u;
  own_name = o;
  in_order = c.in_order;
}

set_history :
    {s : Db} (es : List Event) (n : ℕ)
    → IsConsistent s
    → Ascending 1 es n
    → IsConsistent (record s { history = es; next_id = n })
set_history es n c a = record {
  drops_once = c.drops_once;
  own_key = c.own_key;
  contacts_once = c.contacts_once;
  own_name = c.own_name;
  in_order = a;
}

insert_row :
    {s : Db} (id : Bytes) (d : Drop)
    → d.id ≡ id
    → IsConsistent s
    → IsConsistent (record s { drops = insert id d s.drops })
insert_row {s} id d h c =
    set_drops (insert id d s.drops) c (insert-Unique id d s.drops c.drops_once)
      (insert-Own (λ d. d.id) id d s.drops h c.own_key)

update_row-IsConsistent :
    {s : Db} (change : Drop → Drop) (id : Bytes) (o : Option Drop)
    → ((d : Drop) → (change d).id ≡ d.id)
    → lookup id s.drops ≡ o
    → IsConsistent s
    → IsConsistent (update_row change id o s).1
unfolding update_row
update_row-IsConsistent change id none h e c = c
update_row-IsConsistent change id (some d) h e c =
    insert_row id (change d) (h d ∙ c.own_key id d e) c

put_contact-IsConsistent :
    (fails : Bool) (d : Contact) (s : Db) → IsConsistent s → IsConsistent (put_contact fails d s).1
unfolding put_contact
put_contact-IsConsistent true d s c = if_state_elim IsConsistent _ _ (valid_trust d.trust) c c
put_contact-IsConsistent false d s c =
    let row : Contact = record d { last_seen = last_seen_row d.last_seen } in
    if_state_elim IsConsistent _ _ (valid_trust d.trust)
      (set_contacts (insert d.name row s.contacts) c
        (insert-Unique d.name row s.contacts c.contacts_once)
        (insert-Own (λ x. x.name) d.name row s.contacts refl c.own_name))
      c

after-IsConsistent : (call : Call) (s : Db) → IsConsistent s → IsConsistent (after call s)
unfolding after upsert_drop update_status set_verified delete_drop add_event put_contact
    delete_contact row_of
after-IsConsistent (upsert true d) s c = c
after-IsConsistent (upsert false d) s c = insert_row d.id (row_of d) refl c
after-IsConsistent (status true id t) s c = c
after-IsConsistent (status false id t) s c =
    update_row-IsConsistent (λ d. record d { status = t }) id (lookup id s.drops) (λ d. refl) refl c
after-IsConsistent (verify true id v) s c = c
after-IsConsistent (verify false id v) s c =
    update_row-IsConsistent (λ d. record d { verified = v }) id (lookup id s.drops) (λ d. refl) refl
      c
after-IsConsistent (delete true g id) s c = c
after-IsConsistent (delete false true id) s c =
    set_history (without id s.history) s.next_id c
      (Ascending-without id 1 s.next_id s.history c.in_order)
after-IsConsistent (delete false false id) s c =
    set_drops (remove id s.drops)
      (set_history (without id s.history) s.next_id c
        (Ascending-without id 1 s.next_id s.history c.in_order))
      (remove-Unique id s.drops c.drops_once) (remove-Own (λ d. d.id) id s.drops c.own_key)
after-IsConsistent (event true id e d now) s c = c
after-IsConsistent (event false id e d now) s c =
    let x : Event = record {
      id = s.next_id;
      drop_id = id;
      event = e;
      at = rfc3339 now;
      detail = d;
    } in
    set_history (s.history ++ (x ∷ [])) (suc s.next_id) c
      (Ascending-append 1 s.next_id s.history x refl c.in_order)
after-IsConsistent (put f d) s c = put_contact-IsConsistent f d s c
after-IsConsistent (forget true n) s c = c
after-IsConsistent (forget false n) s c =
    set_contacts (remove n s.contacts) c (remove-Unique n s.contacts c.contacts_once)
      (remove-Own (λ d. d.name) n s.contacts c.own_name)

after_all-IsConsistent :
    (calls : List Call) (s : Db) → IsConsistent s → IsConsistent (after_all calls s)
unfolding after_all
after_all-IsConsistent [] s c = c
after_all-IsConsistent (x ∷ xs) s c =
    after_all-IsConsistent xs (after x s) (after-IsConsistent x s c)

empty-IsConsistent : IsConsistent empty
unfolding lookup
empty-IsConsistent = record {
  drops_once = tt;
  own_key = λ id d e. absurd (ground arith);
  contacts_once = tt;
  own_name = λ id d e. absurd (ground arith);
  in_order = omega arith;
}

pub after_all-Consistent : (calls : List Call) → IsConsistent (after_all calls empty)
after_all-Consistent calls = after_all-IsConsistent calls empty empty-IsConsistent
