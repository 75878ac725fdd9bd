-- ===== src/Storage/Local/Lawful.antt =====
-- The local provider meets the interface.
use mathlib.Core.Path.{subst}
use dero_ghost_drop.Base.{
  ℕ, suc, ◌≤◌, ◌≡◌, ◌∙◌, inl, inr, refl, sym, ap, true, false, Option, none, some, [], arith, Bytes,
  codes, lookup, lookup-insert_self, length, take, drop,
}
use dero_ghost_drop.Base.Int.{pos}
use dero_ghost_drop.Storage.Types.{Result, ok, err, Reader, Blob, is_past}
use dero_ghost_drop.Storage.Ids.{validate_id}
use dero_ghost_drop.Storage.Store.{Store, IsLawful}
use dero_ghost_drop.Storage.Local.{
  stat, health, Local, LocalMeta, Faults, put_renamed, put_copied, put_sized, put, get, get_found,
  get_open, read_meta, delete, copy_loop,
}
use dero_ghost_drop.Storage.Local.Copy.{copied, copied_length}
use dero_ghost_drop.Storage.Local.Sound.{
  Removable, IsSound, view, put_renamed_cases, put-Keeps, get-Keeps, delete-Keeps,
  remove_files-view,
}

abbrev pub no_faults : Faults
no_faults = record {
  done = λ i. false;
  create_fails = false;
  write_fails = λ i. false;
  close_fails = false;
  meta_fails = false;
  rename_bin_fails = false;
  rename_meta_fails = false;
  read_meta_fails = false;
  open_fails = false;
  seek_fails = false;
}

abbrev pub local_store : Store
local_store = record {
  State = Local;
  Faults = Faults;
  healthy = no_faults;
  IsSound = IsSound;
  view = view;
  put = put;
  get = get;
  delete = delete;
  stat = stat;
  health = health;
  backend = codes "local";
}

abbrev new_meta : Bytes → Option ℕ → LocalMeta
new_meta out expiry = record { size = length out; expiry = expiry }

renamed_stores :
    (f : Faults) (id out : Bytes) (expiry : Option ℕ) (p : Local)
    → Removable p
    → (put_renamed f id out (length out) expiry p).0 ≡ ok tt
    → view (put_renamed f id out (length out) expiry p).1 id
      ≡ some (record { bytes = out; expiry = expiry })
renamed_stores f id out expiry p u h = elim (put_renamed_cases f id out expiry p u) [
  | inl e ↦ cc
  | inr (inl e) ↦ cc
  | inr (inr e) ↦
      rw (e, lookup-insert_self id out p.bins, lookup-insert_self id (new_meta out expiry) p.metas)
]

copied_stores :
    (f : Faults) (id src : Bytes) (size : ℕ) (expiry : Option ℕ) (p : Local) (c : Result Bytes)
    → Removable p
    → copy_loop (suc size) f 1 src [] size ≡ c
    → (put_copied f id size expiry p c).0 ≡ ok tt
    → (size ≤ length src)
      × (view (put_copied f id size expiry p c).1 id
          ≡ some (record { bytes = take size src; expiry = expiry }))
unfolding put_copied
copied_stores f id src size expiry p (err e) u k h = ground arith
copied_stores f id src size expiry p (ok out) u k h =
    let (e, le) = copied f src size k in
    let n = copied_length f src size k in
    (
      le,
      subst
          (λ m.
            view (put_renamed f id out m expiry p).1 id
            ≡ some (record { bytes = take size src; expiry = expiry }))
          n
          (renamed_stores f id out expiry p u
              (subst (λ m. (put_renamed f id out m expiry p).0 ≡ ok tt) (sym n) h)
            ∙ ap (λ b. some (record { bytes = b; expiry = expiry })) e),
    )

put_stores :
    (f : Faults) (id : Bytes) (r : Reader) (size : ℕ) (expiry : Option ℕ) (p : Local)
    → Removable p
    → (put f id r (pos size) expiry p).0 ≡ ok tt
    → (size ≤ length r.bytes)
      × (view (put f id r (pos size) expiry p).1 id
          ≡ some (record { bytes = take size r.bytes; expiry = expiry }))
unfolding put put_sized
put_stores f id r size expiry p u h = ground (
  arith,
  copied_stores f id r.bytes size expiry p (copy_loop (suc size) f 1 r.bytes [] size) u refl,
)

get_delivers :
    (f : Faults) (id : Bytes) (off now : ℕ) (p : Local) {out : Bytes}
    → IsSound p
    → (get f id (pos off) now p).0 ≡ ok out
    → (b : Blob) × (view p id ≡ some b)
      × (is_past b.expiry now ≡ false)
      × (out ≡ drop off b.bytes)
      × ((get f id (pos off) now p).1 ≡ p)
unfolding get get_found get_open read_meta
get_delivers f id off now p {out} h e = go (lookup id p.bins) refl (lookup id p.metas) refl
  where
    go :
        (file : Option Bytes)
        → lookup id p.bins ≡ file
        → (m : Option LocalMeta) → lookup id p.metas ≡ m
        → (b : Blob) × (view p id ≡ some b)
          × (is_past b.expiry now ≡ false)
          × (out ≡ drop off b.bytes)
          × ((get f id (pos off) now p).1 ≡ p)
    go none i m j = absurd (ground arith)
    go (some file) i none j = absurd (ground arith)
    go (some file) i (some m) j = (
      record { bytes = file; expiry = m.expiry },
      ground arith,
      ground arith,
      ground arith,
      ground arith,
    )

get_succeeds :
    (id : Bytes) (off now : ℕ) (p : Local) {b : Blob}
    → IsSound p
    → validate_id id ≡ true
    → view p id ≡ some b
    → is_past b.expiry now ≡ false
    → off ≤ length b.bytes
    → get no_faults id (pos off) now p ≡ (ok (drop off b.bytes), p)
unfolding get get_found get_open read_meta
get_succeeds id off now p h v e x le = ground (arith, h.entry id)

delete_removes :
    (f : Faults) (id : Bytes) (p : Local)
    → Removable p
    → (delete f id p).0 ≡ ok tt
    → view (delete f id p).1 id ≡ none
unfolding delete
delete_removes f id p u h = ground (arith, remove_files-view id p u)

delete_succeeds :
    (id : Bytes) (p : Local) → validate_id id ≡ true → (delete no_faults id p).0 ≡ ok tt
unfolding delete
delete_succeeds id p v = ground arith

-- Where the files of the directory can be removed (Delete and Get ignore the errors of os.Remove),
-- the local provider refines the interface: whatever else goes wrong in a call, it touches no other
-- id and keeps the directory in order; a Put without an error has stored the blob, a Get delivers what
-- is stored and nothing past its expiry, and a Delete without an error has removed it. Without a
-- fault, a Get of what is stored and not expired succeeds, and so does a Delete, both for a valid id.
pub local_store-IsLawful : IsLawful local_store
local_store-IsLawful = record {
  put-Keeps = put-Keeps;
  put_stores = λ f id r size expiry p h. put_stores f id r size expiry p h.removable;
  get-Keeps = get-Keeps;
  get_delivers = λ f id off now p. get_delivers f id off now p;
  get_succeeds = λ id off now p. get_succeeds id off now p;
  delete-Keeps = delete-Keeps;
  delete_removes = λ f id p h. delete_removes f id p h.removable;
  delete_succeeds = delete_succeeds;
}
