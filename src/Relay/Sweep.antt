-- ===== src/Relay/Sweep.antt =====
-- The sweeper and the statistics.
use dero_ghost_drop.Base.{
  ℕ, ◌+◌, ◌≡◌, refl, Bool, false, Option, none, some, List, [], ◌∷◌, map, arith, Bytes, Map,
  bytes_eq, bytes_eq_iff, lookup, lookup-remove, length-remove, length, bytes_eq_self, ◌≢◌, ap,
  total, Unique, ◌||◌, if◌then◌else◌, inl, inr, Option-cases,
}
use dero_ghost_drop.Relay.Types.{Env, Meta, Server}
use dero_ghost_drop.Relay.Disk.{expired, delete_locked, stored_bytes}
use dero_ghost_drop.Relay.Handlers.{sweep_one, sweep_ids, sweep, handle_stats, count_bins}
use dero_ghost_drop.Relay.Safety.Sound.{IsSound}
use dero_ghost_drop.Relay.Safety.Keeps.{sweep_one-IsSound}

-- What should be left of a record.
abbrev pub swept : Env → ℕ → Option Meta → Option Meta
swept env now none = none
swept env now (some m) = if expired env m now then none else some m

is_in : Bytes → List Bytes → Bool
is_in j [] = false
is_in j (id ∷ ids) = bytes_eq id j || is_in j ids

sweep_found :
    (env : Env) (now : ℕ) (id j : Bytes) (s : Server) (m : Meta)
    → IsSound s
    → lookup id s.metas ≡ some m
    → lookup j (sweep_one env now id s).0.metas
      ≡ (if bytes_eq id j then swept env now (lookup j s.metas) else lookup j s.metas)
unfolding sweep_one delete_locked
sweep_found env now id j s m h e =
    ground (arith, h.removable, h.entry id, bytes_eq_iff id j, lookup-remove m.id j s.metas)

sweep_missing :
    (env : Env) (now : ℕ) (id j : Bytes) (s : Server)
    → lookup id s.metas ≡ none
    → lookup j (sweep_one env now id s).0.metas
      ≡ (if bytes_eq id j then swept env now (lookup j s.metas) else lookup j s.metas)
unfolding sweep_one
sweep_missing env now id j s e = ground (arith, bytes_eq_iff id j)

lookup-sweep_one :
    (env : Env) (now : ℕ) (id j : Bytes) (s : Server)
    → IsSound s
    → lookup j (sweep_one env now id s).0.metas
      ≡ (if bytes_eq id j then swept env now (lookup j s.metas) else lookup j s.metas)
lookup-sweep_one env now id j s h = elim (Option-cases (lookup id s.metas)) [
  | inl e ↦ sweep_missing env now id j s e
  | inr (m, e) ↦ sweep_found env now id j s m h e
]

lookup-sweep_ids :
    (env : Env) (now : ℕ) (ids : List Bytes) (j : Bytes) (s : Server)
    → IsSound s
    → lookup j (sweep_ids env now ids s).0.metas
      ≡ (if is_in j ids then swept env now (lookup j s.metas) else lookup j s.metas)
unfolding sweep_ids is_in
lookup-sweep_ids env now [] j s h = refl
lookup-sweep_ids env now (id ∷ ids) j s h = ground (
  arith,
  lookup-sweep_one env now id j s h,
  lookup-sweep_ids env now ids j (sweep_one env now id s).0 (sweep_one-IsSound env now id s h),
)

is_in-keys :
    (j : Bytes) (metas : Map Meta) → is_in j (map (λ e. e.0) metas) ≡ false → lookup j metas ≡ none
unfolding is_in lookup
is_in-keys j [] h = refl
is_in-keys j ((k, m) ∷ metas) h = ground (arith, is_in-keys j metas)

removed_one :
    (env : Env) (now : ℕ) (id : Bytes) (s : Server)
    → IsSound s
    → length (sweep_one env now id s).0.metas + (sweep_one env now id s).1 ≡ length s.metas
unfolding sweep_one delete_locked
removed_one env now id s h = elim (Option-cases (lookup id s.metas)) [
  | inl e ↦ ground arith
  | inr (m, e) ↦ ground (arith, h.removable, h.entry id, length-remove id m s.metas h.metas_unique)
]

removed_ids :
    (env : Env) (now : ℕ) (ids : List Bytes) (s : Server)
    → IsSound s
    → length (sweep_ids env now ids s).0.metas + (sweep_ids env now ids s).1 ≡ length s.metas
unfolding sweep_ids
removed_ids env now [] s h = omega arith
removed_ids env now (id ∷ ids) s h = omega (
  arith,
  removed_one env now id s h,
  removed_ids env now ids (sweep_one env now id s).0 (sweep_one-IsSound env now id s h),
)

-- In a well-formed state a sweep removes exactly the records that have expired, leaves every other
-- record as it was, and returns the number of records removed.
pub sweep_exact :
    (env : Env) (now : ℕ) (s : Server)
    → IsSound s
    → ((j : Bytes) → lookup j (sweep env now s).0.metas ≡ swept env now (lookup j s.metas))
      × (length (sweep env now s).0.metas + (sweep env now s).1 ≡ length s.metas)
unfolding sweep
sweep_exact env now s h = (
  λ j.
      ground (arith, lookup-sweep_ids env now (map (λ e. e.0) s.metas) j s h, is_in-keys j s.metas),
  removed_ids env now (map (λ e. e.0) s.metas) s h,
)

count_bins_all :
    (metas : Map Meta) (bins : Map Bytes)
    → Unique bins
    → ((id file : Bytes) → lookup id bins ≡ some file → lookup id metas ≢ none)
    → count_bins metas bins ≡ (length bins, total length bins)
unfolding count_bins lookup total
count_bins_all metas [] u h = refl
count_bins_all metas ((id, file) ∷ bins) u h = ground (
  arith,
  h id file (rw (bytes_eq_self id)),
  count_bins_all metas bins u.1 (λ j f e. h j f (ground (arith, bytes_eq_iff id j))),
)

-- In a well-formed state the statistics count every payload: the bytes are those that the quota
-- counts, and there are as many drops as payload files.
pub handle_stats_exact :
    (s : Server)
    → IsSound s
    → ((handle_stats s).bytes_stored ≡ stored_bytes s) × ((handle_stats s).drops ≡ length s.bins)
unfolding handle_stats stored_bytes
handle_stats_exact s h =
    let e =
      count_bins_all s.metas s.bins h.bins_unique (λ id file f n. ground (arith, h.entry id)) in
    (ap (λ (p : ℕ × ℕ). p.1) e, ap (λ (p : ℕ × ℕ). p.0) e)
