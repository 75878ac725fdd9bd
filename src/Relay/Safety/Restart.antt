-- ===== src/Relay/Safety/Restart.antt =====
-- The token index that the server rebuilds at start is the one that it kept.
use dero_ghost_drop.Base.{
  ◌≡◌, refl, Option, none, some, [], ◌∷◌, arith, Bytes, Map, bytes_eq_iff, bytes_eq_self, lookup,
  insert, lookup-insert, Unique, insert-Unique,
}
use dero_ghost_drop.Relay.Types.{Meta, Server}
use dero_ghost_drop.Relay.Handlers.{tokens_of, restart}
use dero_ghost_drop.Relay.Safety.Sound.{IsSound}

-- Every record stands under its own id.
abbrev NamedById : Map Meta → Type 0
NamedById [] = Unit
NamedById ((name, m) ∷ metas) = (m.id ≡ name) × NamedById metas

NamedById-of_lookups :
    (metas : Map Meta)
    → Unique metas
    → ((id : Bytes) (m : Meta) → lookup id metas ≡ some m → m.id ≡ id)
    → NamedById metas
unfolding lookup
NamedById-of_lookups [] u h = tt
NamedById-of_lookups ((name, m) ∷ metas) u h = (
  h name m (rw (bytes_eq_self name)),
  NamedById-of_lookups metas u.1 (λ id n e. ground (arith, h id n, bytes_eq_iff name id)),
)

-- The hash of a record, or what an index already says.
abbrev hash_or : Option Meta → Option Bytes → Option Bytes
hash_or none old = old
hash_or (some m) old = some m.token_hash

lookup-tokens_of :
    (metas : Map Meta) (tokens : Map Bytes) (j : Bytes)
    → Unique metas
    → NamedById metas
    → lookup j (tokens_of metas tokens) ≡ hash_or (lookup j metas) (lookup j tokens)
unfolding tokens_of lookup
lookup-tokens_of [] tokens j u h = refl
lookup-tokens_of ((name, m) ∷ metas) tokens j u h = ground (
  arith,
  lookup-tokens_of metas (insert m.id m.token_hash tokens) j u.1 h.1,
  lookup-insert m.id j m.token_hash tokens,
  bytes_eq_iff name j,
)

tokens_of-Unique :
    (metas : Map Meta) (tokens : Map Bytes) → Unique tokens → Unique (tokens_of metas tokens)
unfolding tokens_of
tokens_of-Unique [] tokens u = u
tokens_of-Unique ((name, m) ∷ metas) tokens u =
    tokens_of-Unique metas (insert m.id m.token_hash tokens)
      (insert-Unique m.id m.token_hash tokens u)

-- In a well-formed state the index that reloadTokens reads from the records on disk has, for every
-- id, the entry that the running server has.
pub lookup-restart :
    (s : Server) (j : Bytes) → IsSound s → lookup j (restart s).tokens ≡ lookup j s.tokens
unfolding restart lookup
lookup-restart s j h = ground (
  arith,
  lookup-tokens_of s.metas [] j h.metas_unique
      (NamedById-of_lookups s.metas h.metas_unique (λ id m e. ground (arith, h.entry id))),
  h.entry j,
)

pub restart-IsSound : (s : Server) → IsSound s → IsSound (restart s)
unfolding restart
restart-IsSound s h = record {
  entry = λ j. rw (lookup-restart s j h) (h.entry j);
  metas_unique = h.metas_unique;
  bins_unique = h.bins_unique;
  tokens_unique = tokens_of-Unique s.metas [] tt;
  removable = h.removable;
}
