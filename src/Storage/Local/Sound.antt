-- ===== src/Storage/Local/Sound.antt =====
-- The directory of the local provider is in order: a payload has its record, of its size.
use mathlib.Core.Path.{subst}
use dero_ghost_drop.Storage.Ids.{validate_id}
use dero_ghost_drop.Base.{
  not, ◌||◌, ltb, if_state_elim, ◌⊎◌, inl, inr, ℕ, suc, ◌≡◌, ◌≢◌, refl, false, Option, none, some,
  [], arith, Bytes, lookup, insert, remove, lookup-insert, lookup-remove, bytes_eq, bytes_eq_iff,
  length,
}
use dero_ghost_drop.Base.Int.{ℤ, pos, negsuc, ltb_ℤ, add_int64}
use dero_ghost_drop.Storage.Types.{Result, ok, err, io_error, Reader, Blob, is_past}
use dero_ghost_drop.Storage.Local.{
  Local, LocalMeta, Faults, remove_files, put_renamed, put_copied, put_sized, put, get, get_found,
  read_meta, delete, copy_loop, dir_used,
}
use dero_ghost_drop.Storage.Local.Copy.{copied_length}

abbrev pub Paired : Option Bytes → Option LocalMeta → Type 0
Paired none m = Unit
Paired (some file) none = ⊥
Paired (some file) (some m) = m.size ≡ length file

-- The files of the directory can be removed.
abbrev pub Removable : Local → Type 0
Removable p = (p.meta_stays ≡ false) × (p.bin_stays ≡ false)

pub record IsSound (p : Local) : Type 0 where
  pub removable : Removable p
  pub entry : (id : Bytes) → Paired (lookup id p.bins) (lookup id p.metas)

-- What is kept for an id.
abbrev pub blob_of : Option Bytes → Option LocalMeta → Option Blob
blob_of none m = none
blob_of (some file) none = none
blob_of (some file) (some m) = some (record { bytes = file; expiry = m.expiry })

abbrev pub view : Local → Bytes → Option Blob
view p id = blob_of (lookup id p.bins) (lookup id p.metas)

-- A call for `id` keeps the order and the other ids.
abbrev pub Keeps : Bytes → Local → Local → Type 0
Keeps id p q = IsSound q × ((j : Bytes) → id ≢ j → view q j ≡ view p j)

bytes_ne : (a b : Bytes) → a ≢ b → bytes_eq a b ≡ false
bytes_ne a b h = ground (arith, bytes_eq_iff a b)

pub remove_files-Keeps : (id : Bytes) (p : Local) → IsSound p → Keeps id p (remove_files id p)
unfolding remove_files
remove_files-Keeps id p h = (
  record {
    removable = h.removable;
    entry = λ j.
        rw (h.removable.0, h.removable.1, lookup-remove id j p.bins, lookup-remove id j p.metas)
          (ground (arith, h.entry j));
  },
  λ j n. rw (
    h.removable.0,
    h.removable.1,
    lookup-remove id j p.bins,
    lookup-remove id j p.metas,
    bytes_ne id j n,
  ),
)

pub remove_files-view : (id : Bytes) (p : Local) → Removable p → view (remove_files id p) id ≡ none
unfolding remove_files
remove_files-view id p h = rw (h.1, lookup-remove id id p.bins) (ground (arith, bytes_eq_iff id id))

-- The directory behind both renames, and behind a second rename that failed.
abbrev pub stored : Bytes → Bytes → Option ℕ → Local → Local
stored id out expiry p = record p {
  bins = insert id out p.bins;
  metas = insert id (record { size = length out; expiry = expiry }) p.metas;
}

abbrev pub lost : Bytes → Bytes → Local → Local
lost id out p = record p { bins = remove id (insert id out p.bins) }

pub put_renamed_cases :
    (f : Faults) (id out : Bytes) (expiry : Option ℕ) (p : Local)
    → Removable p
    → (put_renamed f id out (length out) expiry p ≡ (err io_error, p))
      ⊎ (put_renamed f id out (length out) expiry p ≡ (err io_error, lost id out p))
      ⊎ (put_renamed f id out (length out) expiry p ≡ (ok tt, stored id out expiry p))
unfolding put_renamed
put_renamed_cases f id out expiry p h = ground arith

stored-Keeps :
    (id out : Bytes) (expiry : Option ℕ) (p : Local)
    → IsSound p
    → Keeps id p (stored id out expiry p)
stored-Keeps id out expiry p h =
    let m : LocalMeta = record { size = length out; expiry = expiry } in
    (
      record {
        removable = h.removable;
        entry = λ j.
            rw (lookup-insert id j out p.bins, lookup-insert id j m p.metas)
              (ground (arith, h.entry j));
      },
      λ j n. rw (lookup-insert id j out p.bins, lookup-insert id j m p.metas, bytes_ne id j n),
    )

lost-Keeps : (id out : Bytes) (p : Local) → IsSound p → Keeps id p (lost id out p)
lost-Keeps id out p h = (
  record {
    removable = h.removable;
    entry = λ j.
        rw (lookup-remove id j (insert id out p.bins), lookup-insert id j out p.bins)
          (ground (arith, h.entry j));
  },
  λ j n.
      rw
        (lookup-remove id j (insert id out p.bins), lookup-insert id j out p.bins, bytes_ne id j n),
)

same-Keeps : (id : Bytes) (p : Local) → IsSound p → Keeps id p p
same-Keeps id p h = (h, λ j n. refl)

put_renamed-Keeps :
    (f : Faults) (id out : Bytes) (expiry : Option ℕ) (p : Local)
    → IsSound p
    → Keeps id p (put_renamed f id out (length out) expiry p).1
put_renamed-Keeps f id out expiry p h = elim (put_renamed_cases f id out expiry p h.removable) [
  | inl e ↦ rw e (same-Keeps id p h)
  | inr (inl e) ↦ rw e (lost-Keeps id out p h)
  | inr (inr e) ↦ rw e (stored-Keeps id out expiry p h)
]

put_copied-Keeps :
    (f : Faults) (id src : Bytes) (size : ℕ) (expiry : Option ℕ) (p : Local) (c : Result Bytes)
    → copy_loop (suc size) f 1 src [] size ≡ c
    → IsSound p
    → Keeps id p (put_copied f id size expiry p c).1
unfolding put_copied
put_copied-Keeps f id src size expiry p (err e) k h = same-Keeps id p h
put_copied-Keeps f id src size expiry p (ok out) k h =
    subst (λ n. Keeps id p (put_renamed f id out n expiry p).1) (copied_length f src size k)
      (put_renamed-Keeps f id out expiry p h)

put_sized-Keeps :
    (f : Faults) (id : Bytes) (r : Reader) (size : ℤ) (expiry : Option ℕ) (p : Local)
    → IsSound p
    → Keeps id p (put_sized f id r size expiry p).1
unfolding put_sized
put_sized-Keeps f id r (negsuc n) expiry p h = same-Keeps id p h
put_sized-Keeps f id r (pos size) expiry p h =
    if_state_elim (Keeps id p) _ _
      (ltb p.max_bytes size || ltb_ℤ (pos p.max_bytes) (add_int64 (dir_used p) size))
      (same-Keeps id p h)
      (if_state_elim (Keeps id p) _ _ f.create_fails (same-Keeps id p h) (
        put_copied-Keeps f id r.bytes size expiry p (copy_loop (suc size) f 1 r.bytes [] size) refl
          h))

pub put-Keeps :
    (f : Faults) (id : Bytes) (r : Reader) (size : ℤ) (expiry : Option ℕ) (p : Local)
    → IsSound p
    → Keeps id p (put f id r size expiry p).1
unfolding put
put-Keeps f id r size expiry p h =
    if_state_elim (Keeps id p) _ _ (not (validate_id id)) (same-Keeps id p h) (
      if_state_elim (Keeps id p) _ _ (f.done 0) (same-Keeps id p h)
        (put_sized-Keeps f id r size expiry p h))

get_found-Keeps :
    (f : Faults) (id : Bytes) (offset : ℤ) (now : ℕ) (p : Local) (m : Result (Option LocalMeta))
    → IsSound p
    → Keeps id p (get_found f id offset now p m).1
unfolding get_found
get_found-Keeps f id offset now p (err e) h = same-Keeps id p h
get_found-Keeps f id offset now p (ok none) h = same-Keeps id p h
get_found-Keeps f id offset now p (ok (some m)) h =
    if_state_elim (Keeps id p) _ _ (is_past m.expiry now) (remove_files-Keeps id p h)
      (same-Keeps id p h)

pub get-Keeps :
    (f : Faults) (id : Bytes) (offset : ℤ) (now : ℕ) (p : Local)
    → IsSound p
    → Keeps id p (get f id offset now p).1
unfolding get
get-Keeps f id offset now p h = if_state_elim (Keeps id p) _ _ (f.done 0) (same-Keeps id p h) (
    if_state_elim (Keeps id p) _ _ (not (validate_id id)) (same-Keeps id p h)
      (get_found-Keeps f id offset now p (read_meta f id p) h))

pub delete-Keeps : (f : Faults) (id : Bytes) (p : Local) → IsSound p → Keeps id p (delete f id p).1
unfolding delete
delete-Keeps f id p h = if_state_elim (Keeps id p) _ _ (f.done 0) (same-Keeps id p h) (
    if_state_elim (Keeps id p) _ _ (not (validate_id id)) (same-Keeps id p h)
      (remove_files-Keeps id p h))
