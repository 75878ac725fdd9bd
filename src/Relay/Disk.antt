-- ===== src/Relay/Disk.antt =====
-- The parts of internal/relay/server.go that the handlers share: tokens, expiry, the quota, files.
use dero_ghost_drop.Base.{
  ℕ, zero, suc, ◌+◌, ◌-◌, Bool, true, false, not, none, some, [], ◌∷◌, ◌++◌, Bytes, bytes_eq,
  insert, remove, total, ltb, ◌&&◌, ◌||◌, length, take, drop, if◌then◌else◌,
}
use dero_ghost_drop.Base.Int.{pos, ltb_ℤ, add_int64}
use dero_ghost_drop.Relay.Types.{Env, Config, Meta, Server}

unfoldable pub is_empty : Bytes → Bool
is_empty [] = true
is_empty (c ∷ cs) = false

-- checkToken: the hash of the token in the header against the stored one.
unfoldable pub check_token : Env → Bytes → Bytes → Bool
unfolding is_empty
check_token env got want =
    if is_empty got || is_empty want then false else bytes_eq (env.sha256_hex got) want

-- meta.expired: an expiry that does not parse counts as past.
unfoldable pub expired : Env → Meta → ℕ → Bool
expired env m now = elim (env.parse_time m.expiry_rfc3339) [
  | none ↦ true
  | some t ↦ not (ltb now t)
]

-- storedBytes: the sizes of the .bin files.
unfoldable pub stored_bytes : Server → ℕ
stored_bytes s = total length s.bins

-- cfg.QuotaBytes > 0 && storedBytes() + size > cfg.QuotaBytes, in int64
unfoldable pub over_quota : Config → ℕ → Server → Bool
over_quota cfg size s =
    ltb_ℤ (pos 0) cfg.quota_bytes && ltb_ℤ cfg.quota_bytes (add_int64 (stored_bytes s) size)

-- deleteLocked: what os.Remove says is ignored, and a file that it does not remove stays.
unfoldable pub delete_locked : Meta → Server → Server
delete_locked m s = record s {
  metas = if s.meta_stays then s.metas else remove m.id s.metas;
  bins = if s.bin_stays then s.bins else remove m.id s.bins;
  tokens = remove m.id s.tokens;
}

-- saveMeta where it succeeds
unfoldable pub save_meta : Meta → Server → Server
save_meta m s = record s { metas = insert m.id m s.metas }

unfoldable pub zeros : ℕ → Bytes
zeros zero = []
zeros (suc n) = 0 ∷ zeros n

-- What a file holds after a seek to `off` and a write: a gap is filled with zeros.
unfoldable pub write_at : ℕ → Bytes → Bytes → Bytes
unfolding zeros
write_at off [] file = file
write_at off (c ∷ cs) file =
    take off file ++ (zeros (off - length file) ++ ((c ∷ cs) ++ drop (off + length (c ∷ cs)) file))
