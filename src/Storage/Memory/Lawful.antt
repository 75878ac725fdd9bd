-- ===== src/Storage/Memory/Lawful.antt =====
-- The memory provider meets the interface.
use dero_ghost_drop.Base.{
  ℕ, ◌≤◌, ◌≡◌, ◌≢◌, ◌∙◌, refl, sym, ap, Bool, false, Option, none, some, arith, Bytes, codes,
  lookup, lookup-insert, lookup-remove, bytes_eq, bytes_eq_iff, length, take, drop,
  take_of_length-le,
}
use dero_ghost_drop.Base.Int.{ℤ, pos, negsuc}
use dero_ghost_drop.Storage.Types.{ok, Reader, Blob, is_past}
use dero_ghost_drop.Storage.Store.{Store, IsLawful}
use dero_ghost_drop.Storage.Memory.{
  stat, health, Item, Provider, put, put_sized, put_data, put_locked, drop_item, get, get_peek,
  get_finish, delete,
}
use dero_ghost_drop.Storage.Memory.Content.{put_stores as put_stores_all}
use dero_ghost_drop.Storage.Memory.Sound.{IsSound, put-IsSound, get-IsSound, delete-IsSound}

abbrev blob_of : Option Item → Option Blob
blob_of none = none
blob_of (some it) = some (record { bytes = it.bytes; expiry = it.expiry })

abbrev pub view : Provider → Bytes → Option Blob
view p id = blob_of (lookup id p.items)

abbrev pub memory_store : Store
memory_store = record {
  State = Provider;
  Faults = Bool;
  healthy = false;
  IsSound = IsSound;
  view = view;
  put = put;
  get = get;
  delete = delete;
  stat = stat;
  health = health;
  backend = codes "memory";
}

bytes_ne : (a b : Bytes) → a ≢ b → bytes_eq a b ≡ false
bytes_ne a b h = ground (arith, bytes_eq_iff a b)

put_data-view :
    (id j : Bytes) (size : ℕ) (expiry : Option ℕ) (blob : Bytes) (p : Provider)
    → id ≢ j
    → lookup j (put_data id size expiry blob p).1.items ≡ lookup j p.items
unfolding put_data put_locked
put_data-view id j size expiry blob p n =
    ground
      (arith, bytes_ne id j, lookup-insert id j (record { bytes = blob; expiry = expiry }) p.items)

put-view :
    (done : Bool) (id j : Bytes) (r : Reader) (size : ℤ) (expiry : Option ℕ) (p : Provider)
    → id ≢ j
    → lookup j (put done id r size expiry p).1.items ≡ lookup j p.items
unfolding put put_sized
put-view done id j r (negsuc k) expiry p n = ground arith
put-view done id j r (pos size) expiry p n = grind (arith, put_data-view)

get-view :
    (done : Bool) (id j : Bytes) (offset : ℤ) (now : ℕ) (p : Provider)
    → id ≢ j
    → lookup j (get done id offset now p).1.items ≡ lookup j p.items
unfolding get get_peek get_finish drop_item
get-view done id j offset now p n = ground (arith, bytes_ne id j, lookup-remove id j p.items)

delete-view :
    (done : Bool) (id j : Bytes) (p : Provider)
    → id ≢ j
    → lookup j (delete done id p).1.items ≡ lookup j p.items
unfolding delete drop_item
delete-view done id j p n = ground (arith, bytes_ne id j, lookup-remove id j p.items)

put_stores :
    (done : Bool) (id : Bytes) (r : Reader) (size : ℕ) (expiry : Option ℕ) (p : Provider)
    → (put done id r (pos size) expiry p).0 ≡ ok tt
    → (size ≤ length r.bytes)
      × (view (put done id r (pos size) expiry p).1 id
          ≡ some (record { bytes = take size r.bytes; expiry = expiry }))
put_stores done id r size expiry p h =
    let (e, le, k) = put_stores_all done id r size expiry p h in
    (
      omega arith,
      ap blob_of k
          ∙ ap (λ b. some (record { bytes = b; expiry = expiry }))
              (sym (take_of_length-le size r.bytes (omega arith))),
    )

get_delivers :
    (done : Bool) (id : Bytes) (off now : ℕ) (p : Provider) {out : Bytes}
    → (get done id (pos off) now p).0 ≡ ok out
    → (b : Blob) × (view p id ≡ some b)
      × (is_past b.expiry now ≡ false)
      × (out ≡ drop off b.bytes)
      × ((get done id (pos off) now p).1 ≡ p)
unfolding get get_peek get_finish
get_delivers done id off now p {out} e = go (lookup id p.items) refl
  where
    go :
        (i : Option Item)
        → lookup id p.items ≡ i
        → (b : Blob) × (view p id ≡ some b)
          × (is_past b.expiry now ≡ false)
          × (out ≡ drop off b.bytes)
          × ((get done id (pos off) now p).1 ≡ p)
    go none k = absurd (ground arith)
    go (some it) k = (
      record { bytes = it.bytes; expiry = it.expiry },
      ground arith,
      ground arith,
      ground arith,
      ground arith,
    )

get_succeeds :
    (id : Bytes) (off now : ℕ) (p : Provider) {b : Blob}
    → view p id ≡ some b
    → is_past b.expiry now ≡ false
    → off ≤ length b.bytes
    → get false id (pos off) now p ≡ (ok (drop off b.bytes), p)
unfolding get get_peek get_finish
get_succeeds id off now p e x le = ground arith

delete_removes :
    (done : Bool) (id : Bytes) (p : Provider)
    → (delete done id p).0 ≡ ok tt
    → view (delete done id p).1 id ≡ none
unfolding delete drop_item
delete_removes done id p h = ground (arith, bytes_eq_iff id id, lookup-remove id id p.items)

delete_succeeds : (id : Bytes) (p : Provider) → (delete false id p).0 ≡ ok tt
unfolding delete
delete_succeeds id p = ground arith

-- The memory provider refines the interface, its calls taken one at a time: a call touches no other
-- id and keeps the accounting; a Put without an error has stored the blob, a Get delivers what is
-- stored and nothing past its expiry, and a Delete without an error has removed it. Without a
-- fault, a Get of what is stored and not expired succeeds, and so does a Delete, both for a valid id.
pub memory_store-IsLawful : IsLawful memory_store
memory_store-IsLawful = record {
  put-Keeps = λ f id r size expiry p h.
      (put-IsSound f id r size expiry p h, λ j n. ap blob_of (put-view f id j r size expiry p n));
  put_stores = λ f id r size expiry p h. put_stores f id r size expiry p;
  get-Keeps = λ f id off now p h.
      (get-IsSound f id off now p h, λ j n. ap blob_of (get-view f id j off now p n));
  get_delivers = λ f id off now p h. get_delivers f id off now p;
  get_succeeds = λ id off now p h v. get_succeeds id off now p;
  delete-Keeps = λ f id p h. (delete-IsSound f id p h, λ j n. ap blob_of (delete-view f id j p n));
  delete_removes = λ f id p h. delete_removes f id p;
  delete_succeeds = λ id p v. delete_succeeds id p;
}
