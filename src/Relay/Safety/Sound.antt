-- ===== src/Relay/Safety/Sound.antt =====
-- The well-formedness of the relay's state, and the state changes that keep it.
use dero_ghost_drop.Base.{
  if◌then◌else◌, ℕ, ◌≤◌, ◌<◌, ◌≡◌, true, false, Option, none, some, [], arith, Bytes, bytes_eq_iff,
  lookup, insert, remove, lookup-insert, lookup-remove, Unique, insert-Unique, remove-Unique,
  length,
}
use dero_ghost_drop.Relay.Types.{Meta, Server}
use dero_ghost_drop.Relay.Ids.{valid_id}
use dero_ghost_drop.Relay.Disk.{delete_locked, save_meta}

-- The files of the data directory can be removed.
abbrev pub Removable : Server → Type 0
Removable s = (s.meta_stays ≡ false) × (s.bin_stays ≡ false)

-- A drop has its record, its payload file and its token hash, or none of the three. The file holds
-- the acknowledged bytes and never more than was declared.
abbrev pub EntryOk : Bytes → Option Meta → Option Bytes → Option Bytes → Type 0
EntryOk id none none none = Unit
EntryOk id (some m) (some file) (some hash) =
    (m.id ≡ id)
    × (valid_id id ≡ true)
    × (m.uploaded_bytes ≤ length file)
    × (length file ≤ m.size_bytes)
    × (0 < m.size_bytes)
    × (hash ≡ m.token_hash)
EntryOk id _ _ _ = ⊥

pub record IsSound (s : Server) : Type 0 where
  pub entry : (id : Bytes) → EntryOk id (lookup id s.metas) (lookup id s.bins) (lookup id s.tokens)
  pub metas_unique : Unique s.metas
  pub bins_unique : Unique s.bins
  pub tokens_unique : Unique s.tokens
  pub removable : Removable s

pub delete_locked-IsSound : (m : Meta) (s : Server) → IsSound s → IsSound (delete_locked m s)
unfolding delete_locked
delete_locked-IsSound m s h = record {
  entry = λ j.
      rw
        (
          h.removable.0,
          h.removable.1,
          lookup-remove m.id j s.metas,
          lookup-remove m.id j s.bins,
          lookup-remove m.id j s.tokens,
        )
        (ground (arith, h.entry j));
  metas_unique = rw h.removable.0 (remove-Unique m.id s.metas h.metas_unique);
  bins_unique = rw h.removable.1 (remove-Unique m.id s.bins h.bins_unique);
  tokens_unique = remove-Unique m.id s.tokens h.tokens_unique;
  removable = h.removable;
}

pub IsSound-counters :
    (s : Server) (up down : ℕ) → IsSound s → IsSound (record s { bytes_up = up; bytes_down = down })
IsSound-counters s up down h = record {
  entry = h.entry;
  metas_unique = h.metas_unique;
  bins_unique = h.bins_unique;
  tokens_unique = h.tokens_unique;
  removable = h.removable;
}

-- Writing a payload that is long enough for its record and not longer than declared.
pub bins-IsSound :
    (id : Bytes) (m : Meta) (file : Bytes) (s : Server)
    → IsSound s
    → lookup id s.metas ≡ some m
    → m.uploaded_bytes ≤ length file
    → length file ≤ m.size_bytes
    → IsSound (record s { bins = insert id file s.bins })
bins-IsSound id m file s h e lo hi = record {
  entry = λ j. rw (lookup-insert id j file s.bins) (ground (arith, h.entry j, bytes_eq_iff id j));
  metas_unique = h.metas_unique;
  bins_unique = insert-Unique id file s.bins h.bins_unique;
  tokens_unique = h.tokens_unique;
  removable = h.removable;
}

-- Acknowledging bytes that the file holds.
pub ack-IsSound :
    (id : Bytes) (m : Meta) (n : ℕ) (file : Bytes) (s : Server)
    → IsSound s
    → lookup id s.metas ≡ some m
    → lookup id s.bins ≡ some file
    → n ≤ length file
    → IsSound (save_meta (record m { uploaded_bytes = n }) s)
unfolding save_meta
ack-IsSound id m n file s h e f le = record {
  entry = λ j.
      rw (lookup-insert m.id j (record m { uploaded_bytes = n }) s.metas)
        (ground (arith, h.entry j, h.entry id, bytes_eq_iff m.id j));
  metas_unique = insert-Unique m.id (record m { uploaded_bytes = n }) s.metas h.metas_unique;
  bins_unique = h.bins_unique;
  tokens_unique = h.tokens_unique;
  removable = h.removable;
}

-- A new drop: record, empty file and token hash.
pub add-IsSound :
    (m : Meta) (s : Server)
    → IsSound s
    → valid_id m.id ≡ true
    → m.uploaded_bytes ≡ 0
    → 0 < m.size_bytes
    → IsSound (record s {
      metas = insert m.id m s.metas;
      bins = insert m.id [] s.bins;
      tokens = insert m.id m.token_hash s.tokens;
    })
add-IsSound m s h v z p = record {
  entry = λ j.
      rw
        (
          lookup-insert m.id j m s.metas,
          lookup-insert m.id j [] s.bins,
          lookup-insert m.id j m.token_hash s.tokens,
        )
        (ground (arith, h.entry j, bytes_eq_iff m.id j));
  metas_unique = insert-Unique m.id m s.metas h.metas_unique;
  bins_unique = insert-Unique m.id [] s.bins h.bins_unique;
  tokens_unique = insert-Unique m.id m.token_hash s.tokens h.tokens_unique;
  removable = h.removable;
}

-- Taking a record back whose drop was not there.
pub undo-IsSound :
    (m : Meta) (s : Server)
    → IsSound s
    → lookup m.id s.metas ≡ none
    → IsSound (record s {
      metas = if s.meta_stays then insert m.id m s.metas else remove m.id (insert m.id m s.metas);
    })
undo-IsSound m s h e = record {
  entry = λ j.
      rw
        (
          h.removable.0,
          lookup-remove m.id j (insert m.id m s.metas),
          lookup-insert m.id j m s.metas,
        )
        (ground (arith, h.entry j, bytes_eq_iff m.id j));
  metas_unique =
      rw h.removable.0
        (remove-Unique m.id (insert m.id m s.metas) (insert-Unique m.id m s.metas h.metas_unique));
  bins_unique = h.bins_unique;
  tokens_unique = h.tokens_unique;
  removable = h.removable;
}
