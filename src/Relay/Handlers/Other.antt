-- ===== src/Relay/Handlers/Other.antt =====
-- handleMeta, handleDelete, handleStats, the sweeper and the reload at start.
use dero_ghost_drop.Base.{
  ℕ, ◌+◌, not, none, some, List, [], ◌∷◌, map, Bytes, Map, lookup, insert, length, if◌then◌else◌,
}
use dero_ghost_drop.Relay.Types.{Env, Meta, Server, Request, Reply, fail, described, deleted}
use dero_ghost_drop.Relay.Ids.{valid_id}
use dero_ghost_drop.Relay.Disk.{check_token, expired, delete_locked}

unfoldable pub handle_meta : Env → ℕ → Request → Server → Reply × Server
handle_meta env now req s =
    if not (valid_id req.id) then (fail 400 "invalid id", s) else elim (lookup req.id s.metas) [
      | none ↦ (fail 404 "not found", s)
      | some m ↦
          if not (check_token env req.token m.token_hash)
          then (fail 401 "unauthorized", s)
          else if expired env m now
          then (fail 410 "expired", delete_locked m s)
          else (described m, s)
    ]

unfoldable pub handle_delete : Env → Request → Server → Reply × Server
handle_delete env req s =
    if not (valid_id req.id) then (fail 400 "invalid id", s) else elim (lookup req.id s.metas) [
      | none ↦ (fail 404 "not found", s)
      | some m ↦
          if not (check_token env req.token m.token_hash)
          then (fail 401 "unauthorized", s)
          else (deleted req.id, delete_locked m s)
    ]

-- One file of the sweep: a record with a valid id that has expired goes.
unfoldable pub sweep_one : Env → ℕ → Bytes → Server → Server × ℕ
sweep_one env now id s = if not (valid_id id) then (s, 0) else elim (lookup id s.metas) [
  | none ↦ (s, 0)
  | some m ↦ if expired env m now then (delete_locked m s, 1) else (s, 0)
]

unfoldable pub sweep_ids : Env → ℕ → List Bytes → Server → Server × ℕ
unfolding sweep_one
sweep_ids env now [] s = (s, 0)
sweep_ids env now (id ∷ ids) s =
    let (s1, n) = sweep_one env now id s in let (s2, k) = sweep_ids env now ids s1 in (s2, n + k)

-- sweep, over the names that os.ReadDir has listed
unfoldable pub sweep : Env → ℕ → Server → Server × ℕ
unfolding sweep_ids
sweep env now s = sweep_ids env now (map (λ e. e.0) s.metas) s

-- The index that reloadTokens builds from the records on disk.
unfoldable pub tokens_of : Map Meta → Map Bytes → Map Bytes
tokens_of [] tokens = tokens
tokens_of ((name, m) ∷ metas) tokens = tokens_of metas (insert m.id m.token_hash tokens)

-- New over the data directory of an earlier server: the counters start again.
unfoldable pub restart : Server → Server
unfolding tokens_of
restart s = record s { tokens = tokens_of s.metas []; bytes_up = 0; bytes_down = 0 }

pub record Stats : Type 0 where
  pub drops : ℕ
  pub bytes_stored : ℕ
  pub bytes_received : ℕ
  pub bytes_served : ℕ

-- The payloads that have a record: how many, and their size.
unfoldable pub count_bins : Map Meta → Map Bytes → ℕ × ℕ
count_bins metas [] = (0, 0)
count_bins metas ((id, file) ∷ bins) =
    let rest = count_bins metas bins in
    elim (lookup id metas) [ none ↦ rest | some _ ↦ (rest.0 + 1, rest.1 + length file) ]

-- handleStats, without the uptime
unfoldable pub handle_stats : Server → Stats
unfolding count_bins
handle_stats s =
    let (drops, stored) = count_bins s.metas s.bins in
    record {
      drops = drops;
      bytes_stored = stored;
      bytes_received = s.bytes_up;
      bytes_served = s.bytes_down;
    }
