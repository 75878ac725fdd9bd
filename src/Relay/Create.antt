-- ===== src/Relay/Create.antt =====
-- Creating a drop: the quota, and all or nothing.
use dero_ghost_drop.Base.{
  if◌then◌else◌, ℕ, zero, suc, ◌+◌, ◌^◌, ◌≤◌, ◌<◌, ◌≡◌, refl, Bool, true, false, Option, none, some,
  [], arith, Bytes, lookup, insert, remove, lookup-insert, lookup-remove, lookup-insert_self,
  bytes_eq_iff, ltb, ◌⊎◌, inl, inr,
}
use dero_ghost_drop.Base.Int.{ℤ, pos, negsuc, add_int64}
use dero_ghost_drop.Relay.Types.{
  Env, Config, CreateRequest, Meta, Server, Faults, Reply, fail, created,
}
use dero_ghost_drop.Relay.Ids.{valid_id}
use dero_ghost_drop.Relay.Disk.{stored_bytes, over_quota, save_meta}
use dero_ghost_drop.Relay.Handlers.{
  positive, parsed, handle_create, create_locked, create_sized, new_meta,
}
use dero_ghost_drop.Relay.Isolation.{SameDrop, SameDrop-refl}

-- Where the sum does not overflow, the quota refuses exactly what would pass it.
quota_exact :
    (cfg : Config) (size q : ℕ) (s : Server)
    → cfg.quota_bytes ≡ pos q
    → 0 < q
    → stored_bytes s + size < 2 ^ 63
    → over_quota cfg size s ≡ ltb q (stored_bytes s + size)
unfolding over_quota add_int64
quota_exact cfg size q s e h k = ground arith

-- The quota of the configuration leaves room for `size` more bytes: no quota is set, or the stored
-- bytes and these are within it, or their sum is too large for an int64, which the source does not
-- see.
abbrev pub QuotaKept : ℤ → ℕ → ℕ → Type 0
QuotaKept (negsuc n) held size = Unit
QuotaKept (pos zero) held size = Unit
QuotaKept (pos (suc q)) held size = (held + size ≤ suc q) ⊎ (2 ^ 63 ≤ held + size)

over_quota-QuotaKept :
    (quota : ℤ) (cfg : Config) (size : ℕ) (s : Server)
    → cfg.quota_bytes ≡ quota
    → over_quota cfg size s ≡ false
    → QuotaKept quota (stored_bytes s) size
over_quota-QuotaKept (negsuc n) cfg size s e h = tt
over_quota-QuotaKept (pos zero) cfg size s e h = tt
over_quota-QuotaKept (pos (suc q)) cfg size s e h = go (ltb (stored_bytes s + size) (2 ^ 63)) refl
  where
    go :
        (b : Bool)
        → ltb (stored_bytes s + size) (2 ^ 63) ≡ b
        → QuotaKept (pos (suc q)) (stored_bytes s) size
    go true lt = inl (ground (arith, quota_exact cfg size (suc q) s e (omega arith) (ground arith)))
    go false ge = inr (ground arith)

-- From 2 ^ 63 on the sum wraps to a negative number, and the quota refuses nothing.
quota_wraps :
    (cfg : Config) (size q : ℕ) (s : Server)
    → cfg.quota_bytes ≡ pos q
    → stored_bytes s < 2 ^ 63
    → size < 2 ^ 63
    → 2 ^ 63 ≤ stored_bytes s + size
    → over_quota cfg size s ≡ false
unfolding over_quota add_int64
quota_wraps cfg size q s e h k l = ground arith

positive-eq_some : (z : ℤ) (n : ℕ) → positive z ≡ some n → (z ≡ pos n) × (0 < n)
unfolding positive
positive-eq_some (pos zero) n h = absurd (cc)
positive-eq_some (pos (suc m)) n h = ground arith
positive-eq_some (negsuc m) n h = absurd (cc)

abbrev pub is_created : Reply → Bool
is_created (created id token) = true
is_created _ = false

-- The state with a new drop in it.
abbrev pub with_drop : Meta → Server → Server
with_drop m s = record s {
  metas = insert m.id m s.metas;
  bins = insert m.id [] s.bins;
  tokens = insert m.id m.token_hash s.tokens;
}

positive-pos : (n m : ℕ) → positive (pos n) ≡ some m → (n ≡ m) × (0 < m)
unfolding positive
positive-pos zero m h = absurd (cc)
positive-pos (suc n) m h = ground arith

module _ (P : Reply → Server → Type 0) (env : Env) where
  create_locked_cases :
      (now : ℕ) (token : Option Bytes) (io : Faults) (req : CreateRequest) (size : ℕ) (s : Server)
      → ((r : Reply) → is_created r ≡ false → P r s)
      → ((r : Reply) (m : Meta)
          → is_created r ≡ false
          → lookup m.id s.metas ≡ none
          → P r (record s {
            metas =
                if s.meta_stays then insert m.id m s.metas else remove m.id (insert m.id m s.metas);
          }))
      → ((tok : Bytes)
          → lookup req.id s.metas ≡ none
          → P (created req.id tok) (with_drop (new_meta env req size tok now) s))
      → P
          (create_locked env now token io req size s).0
          (create_locked env now token io req size s).1
  unfolding create_locked save_meta
  create_locked_cases now none io req size s same undone done = grind arith
  create_locked_cases now (some tok) io req size s same undone done = ground (
    arith,
    same (fail 409 "drop exists") refl,
    same (fail 500 "persist failure") refl,
    undone (fail 500 "persist failure") (new_meta env req size tok now) refl,
    done tok,
  )

  create_sized_checks :
      (cfg : Config) (now : ℕ) (token : Option Bytes) (io : Faults) (req : CreateRequest) (size : ℕ)
      (s : Server)
      → ((r : Reply) → is_created r ≡ false → P r s)
      → ((exp : ℕ)
          → env.parse_time req.expiry_rfc3339 ≡ some exp
          → now < exp
          → over_quota cfg size s ≡ false
          → P
              (create_locked env now token io req size s).0
              (create_locked env now token io req size s).1)
      → let (r, t) = create_sized env cfg now token io req size s in P r t
  unfolding create_sized
  create_sized_checks cfg now token io req size s same locked = grind arith

  create_checks :
      (cfg : Config) (now : ℕ) (token : Option Bytes) (io : Faults) (req : CreateRequest)
      (s : Server)
      → ((r : Reply) → is_created r ≡ false → P r s)
      → ((size : ℕ)
          → valid_id req.id ≡ true
          → positive req.size_bytes ≡ some size
          → P
              (create_sized env cfg now token io req size s).0
              (create_sized env cfg now token io req size s).1)
      → let (r, t) = handle_create env cfg now token io (parsed req) s in P r t
  unfolding handle_create
  create_checks cfg now token io req s same sized = grind arith

  -- Creation ends with a refusal that changes nothing, with a record that is taken back if it can be
  -- removed, or with a new drop, whose request has passed every check.
  pub create_cases :
      (cfg : Config) (now : ℕ) (token : Option Bytes) (io : Faults) (req : CreateRequest)
      (s : Server)
      → ((r : Reply) → is_created r ≡ false → P r s)
      → ((r : Reply) (m : Meta)
          → is_created r ≡ false
          → lookup m.id s.metas ≡ none
          → P r (record s {
            metas =
                if s.meta_stays then insert m.id m s.metas else remove m.id (insert m.id m s.metas);
          }))
      → ((tok : Bytes) (size exp : ℕ)
          → valid_id req.id ≡ true
          → req.size_bytes ≡ pos size
          → 0 < size
          → env.parse_time req.expiry_rfc3339 ≡ some exp
          → now < exp
          → over_quota cfg size s ≡ false
          → lookup req.id s.metas ≡ none
          → P (created req.id tok) (with_drop (new_meta env req size tok now) s))
      → let (r, t) = handle_create env cfg now token io (parsed req) s in P r t
  create_cases cfg now token io req s same undone done =
      create_checks cfg now token io req s same λ size v z.
        create_sized_checks cfg now token io req size s same λ exp x n q.
          create_locked_cases now token io req size s same undone (λ tok e.
            done tok size exp v (positive-eq_some req.size_bytes size z).0
              (positive-eq_some req.size_bytes size z).1 x n q e)

undone_same :
    (j : Bytes) (m : Meta) (s : Server)
    → s.meta_stays ≡ false
    → lookup m.id s.metas ≡ none
    → SameDrop j s (record s {
      metas = if s.meta_stays then insert m.id m s.metas else remove m.id (insert m.id m s.metas);
    })
undone_same j m s stays e = record {
  same_meta =
      rw (stays, lookup-remove m.id j (insert m.id m s.metas), lookup-insert m.id j m s.metas)
        (ground (arith, bytes_eq_iff m.id j));
  same_file = refl;
  same_hash = refl;
}

-- A refusal without effect, or a new drop for a request that has passed every check: the id is valid
-- and free, the size positive, the expiry ahead, the quota kept; the record, an empty payload and
-- the hash of the returned token are there.
abbrev pub RefusedOrCreated : Env → Config → ℕ → CreateRequest → Server → Reply → Server → Type 0
RefusedOrCreated env cfg now req s r t =
    ((is_created r ≡ false) × ((j : Bytes) → SameDrop j s t))
    ⊎ ((tok : Bytes) × (size exp : ℕ) × (r ≡ created req.id tok)
        × (valid_id req.id ≡ true)
        × (req.size_bytes ≡ pos size)
        × (0 < size)
        × (env.parse_time req.expiry_rfc3339 ≡ some exp)
        × (now < exp)
        × QuotaKept cfg.quota_bytes (stored_bytes s) size
        × (lookup req.id s.metas ≡ none)
        × (lookup req.id t.metas ≡ some (new_meta env req size tok now))
        × (lookup req.id t.bins ≡ some [])
        × (lookup req.id t.tokens ≡ some (env.sha256_hex tok)))

-- Creation is all or nothing where records can be removed. It answers with the requested id and a token only for a valid id that
-- no drop has, a positive size, and an expiry that parses and lies ahead, and where a positive quota
-- is set, only if the stored bytes and the size are together within it or at least 2 ^ 63, where the
-- int64 sum of the source has wrapped; then the drop is there with its record, an empty payload and the hash of that token. On
-- every other answer no drop has changed.
pub create_all_or_nothing :
    (env : Env) (cfg : Config) (now : ℕ) (token : Option Bytes) (io : Faults) (req : CreateRequest)
    (s : Server)
    → s.meta_stays ≡ false
    → let (r, t) = handle_create env cfg now token io (parsed req) s in
      RefusedOrCreated env cfg now req s r t
unfolding new_meta
create_all_or_nothing env cfg now token io req s stays =
    create_cases (RefusedOrCreated env cfg now req s) env cfg now token io req s
      (λ r c. inl (c, λ j. SameDrop-refl j s)) (λ r m c e. inl (c, λ j. undone_same j m s stays e))
      (λ tok size exp v z p x n q e. inr (
        tok,
        size,
        exp,
        refl,
        v,
        z,
        p,
        x,
        n,
        over_quota-QuotaKept cfg.quota_bytes cfg size s refl q,
        e,
        lookup-insert_self req.id (new_meta env req size tok now) s.metas,
        lookup-insert_self req.id [] s.bins,
        lookup-insert_self req.id (env.sha256_hex tok) s.tokens,
      ))

-- The quota is passed by a declared size so large that the int64 sum wraps: where stored bytes and
-- size together reach 2 ^ 63, a request that passes the other checks is accepted, whatever the
-- positive quota.
pub quota_bypassed :
    (env : Env) (cfg : Config) (now : ℕ) (tok : Bytes) (io : Faults) (req : CreateRequest)
    (s : Server) (q size exp : ℕ)
    → cfg.quota_bytes ≡ pos q
    → valid_id req.id ≡ true
    → req.size_bytes ≡ pos (suc size)
    → env.parse_time req.expiry_rfc3339 ≡ some exp
    → now < exp
    → lookup req.id s.metas ≡ none
    → lookup req.id s.bins ≡ none
    → io.save_fails ≡ false
    → io.open_fails ≡ false
    → stored_bytes s < 2 ^ 63
    → suc size < 2 ^ 63
    → 2 ^ 63 ≤ stored_bytes s + suc size
    → (handle_create env cfg now (some tok) io (parsed req) s).0 ≡ created req.id tok
unfolding handle_create create_sized create_locked save_meta
quota_bypassed env cfg now tok io req s q size exp cq v z p x e f sf of a b c =
    ground (arith, quota_wraps cfg (suc size) q s cq a b c)
