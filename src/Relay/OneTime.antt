-- ===== src/Relay/OneTime.antt =====
-- One-time drops: what one download leaves for the next.
use dero_ghost_drop.Base.{
  ℕ, ◌≡◌, ◌≢◌, refl, false, none, [], ◌∷◌, arith, Bytes, lookup, lookup-remove, bytes_eq_self,
}
use dero_ghost_drop.Strings.{trim_space}
use dero_ghost_drop.Relay.Types.{Env, Meta, Server, Request, Faults}
use dero_ghost_drop.Relay.Disk.{is_empty, delete_locked}
use dero_ghost_drop.Relay.Handlers.{get_open, serving, Serving, handle_get}
use dero_ghost_drop.Relay.Safety.Sound.{Removable}

-- Nothing of the drop is left: no record, no payload, no token.
abbrev pub Gone : Bytes → Server → Type 0
Gone id s = (lookup id s.metas ≡ none) × (lookup id s.bins ≡ none) × (lookup id s.tokens ≡ none)

pub delete_locked-Gone : (m : Meta) (s : Server) → Removable s → Gone m.id (delete_locked m s)
unfolding delete_locked
delete_locked-Gone m s h = (
  rw (h.0, lookup-remove m.id m.id s.metas, bytes_eq_self m.id),
  rw (h.1, lookup-remove m.id m.id s.bins, bytes_eq_self m.id),
  rw (lookup-remove m.id m.id s.tokens, bytes_eq_self m.id),
)

ranged : (trimmed : Bytes) → trimmed ≢ [] → is_empty trimmed ≡ false
unfolding is_empty
ranged [] h = absurd (h refl)
ranged (c ∷ cs) h = refl

not_full_keeps :
    (env : Env) (now : ℕ) (io : Faults) (req : Request) (s : Server) {g : Serving}
    → (get_open env now io req s).0 ≡ serving g
    → is_empty (trim_space req.range) ≡ false
    → let t = (handle_get env now io req s).1 in
      (t.metas ≡ s.metas) × (t.bins ≡ s.bins) × (t.tokens ≡ s.tokens)
unfolding handle_get get_open
not_full_keeps env now io req s d f = ground arith

-- With a Range header nothing is deleted: after a download whose Range header is not blank the record
-- and the payload stand as before, one-time or not, also where the range is the whole file.
pub ranged_get_keeps :
    (env : Env) (now : ℕ) (io : Faults) (req : Request) (s : Server) {g : Serving}
    → (get_open env now io req s).0 ≡ serving g
    → trim_space req.range ≢ []
    → let t = (handle_get env now io req s).1 in
      (t.metas ≡ s.metas) × (t.bins ≡ s.bins) × (t.tokens ≡ s.tokens)
ranged_get_keeps env now io req s d f =
    not_full_keeps env now io req s d (ranged (trim_space req.range) f)
