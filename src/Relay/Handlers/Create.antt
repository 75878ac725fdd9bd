-- ===== src/Relay/Handlers/Create.antt =====
-- handleCreate
use dero_ghost_drop.Base.{
  ℕ, suc, Bool, true, false, not, Option, none, some, [], Bytes, lookup, insert, remove, ltb, ◌||◌,
  if◌then◌else◌,
}
use dero_ghost_drop.Base.Int.{ℤ, pos}
use dero_ghost_drop.Relay.Types.{
  Env, Config, CreateRequest, Meta, Server, Faults, Reply, fail, created,
}
use dero_ghost_drop.Relay.Ids.{valid_id}
use dero_ghost_drop.Relay.Disk.{over_quota, save_meta}

-- What io.ReadAll and json.Unmarshal make of the body.
pub data Body : Type 0 where
  unreadable : Body
  invalid_json : Body
  parsed : CreateRequest → Body

unfoldable pub positive : ℤ → Option ℕ
positive (pos (suc n)) = some (suc n)
positive _ = none

module _ (env : Env) where
  -- The record of a drop that is being created with the token `tok`.
  unfoldable pub new_meta : CreateRequest → ℕ → Bytes → ℕ → Meta
  new_meta req size tok now = record {
    id = req.id;
    size_bytes = size;
    expiry_rfc3339 = req.expiry_rfc3339;
    one_time = req.one_time;
    token_hash = env.sha256_hex tok;
    uploaded_bytes = 0;
    created_at = env.format_time now;
    served_full = false;
  }

  unfoldable pub bin_exists : Bytes → Server → Bool
  bin_exists id s = elim (lookup id s.bins) [ none ↦ false | some _ ↦ true ]

  -- Behind the lock: os.Stat of the record, the token, saveMeta, and the empty file, which must not
  -- be there yet. Where it cannot be made the record goes, if it can be removed.
  unfoldable pub create_locked :
      ℕ → Option Bytes → Faults → CreateRequest → ℕ → Server → Reply × Server
  unfolding new_meta bin_exists
  create_locked now token io req size s = elim (lookup req.id s.metas) [
    | some _ ↦ (fail 409 "drop exists", s)
    | none ↦ elim token [
      | none ↦ (fail 500 "token failure", s)
      | some tok ↦
          let m = new_meta req size tok now in
          let s' = save_meta m s in
          if io.save_fails
          then (fail 500 "persist failure", s)
          else if io.open_fails || bin_exists req.id s'
          then (
            fail 500 "persist failure",
            record s' { metas = if s'.meta_stays then s'.metas else remove req.id s'.metas },
          )
          else (
            created req.id tok,
            record s' {
              bins = insert req.id [] s'.bins;
              tokens = insert req.id m.token_hash s'.tokens;
            },
          )
    ]
  ]

  -- Behind the test of the size.
  unfoldable pub create_sized :
      Config → ℕ → Option Bytes → Faults → CreateRequest → ℕ → Server → Reply × Server
  create_sized cfg now token io req size s = elim (env.parse_time req.expiry_rfc3339) [
    | none ↦ (fail 400 "expiry_rfc3339 must be RFC3339", s)
    | some exp ↦
        if not (ltb now exp)
        then (fail 400 "expiry must be in the future", s)
        else if over_quota cfg size s
        then (fail 507 "quota exceeded", s)
        else create_locked now token io req size s
  ]

  unfoldable pub create_parsed :
      Config → ℕ → Option Bytes → Faults → CreateRequest → Server → Reply × Server
  unfolding positive
  create_parsed cfg now token io req s =
      if not (valid_id req.id) then (fail 400 "invalid id", s) else elim (positive req.size_bytes) [
        | none ↦ (fail 400 "size_bytes must be positive", s)
        | some size ↦ create_sized cfg now token io req size s
      ]

  -- `token` is what newToken returns.
  unfoldable pub handle_create : Config → ℕ → Option Bytes → Faults → Body → Server → Reply × Server
  unfolding create_parsed
  handle_create cfg now token io unreadable s = (fail 400 "unreadable body", s)
  handle_create cfg now token io invalid_json s = (fail 400 "invalid JSON", s)
  handle_create cfg now token io (parsed req) s = create_parsed cfg now token io req s
