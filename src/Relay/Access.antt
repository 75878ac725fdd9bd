-- ===== src/Relay/Access.antt =====
-- Who may do what, and when: tokens and expiry.
use mathlib.Core.Path.{subst}
use dero_ghost_drop.Base.{
  ℕ, ◌≤◌, ◌≡◌, ◌≢◌, refl, sym, ap, true, false, [], ◌∷◌, none, some, arith, Bytes, lookup,
  bytes_eq_iff, ◌&&◌, ◌⊎◌, inl, inr, Option-cases,
}
use dero_ghost_drop.Relay.Types.{Env, Meta, Server, Request, Faults, fail}
use dero_ghost_drop.Relay.Ids.{valid_id}
use dero_ghost_drop.Relay.Disk.{is_empty, check_token, expired, delete_locked}
use dero_ghost_drop.Relay.Handlers.{
  handle_put, put_found, get_open, serving, Serving, handle_meta, handle_delete, handle_get,
}
use dero_ghost_drop.Relay.Safety.Sound.{IsSound}
use dero_ghost_drop.Relay.OneTime.{Gone, delete_locked-Gone}

-- checkToken: the token is not empty, and its hash is the stored value, which is not empty either.
check_token_refuses :
    (env : Env) (got want : Bytes)
    → (env.sha256_hex got ≢ want) ⊎ (got ≡ [])
    → check_token env got want ≡ false
unfolding check_token is_empty
check_token_refuses env got want (inl ne) = ground (arith, bytes_eq_iff (env.sha256_hex got) want)
check_token_refuses env got want (inr e) = rw e refl

check_token_accepts :
    (env : Env) (got want : Bytes)
    → env.sha256_hex got ≡ want
    → got ≢ []
    → want ≢ []
    → check_token env got want ≡ true
unfolding check_token is_empty
check_token_accepts env [] want e n k = absurd (n refl)
check_token_accepts env (c ∷ cs) [] e n k = absurd (k refl)
check_token_accepts env (c ∷ cs) (w ∷ ws) e n k =
    (bytes_eq_iff (env.sha256_hex (c ∷ cs)) (w ∷ ws)).1 e

check_token_token : (env : Env) (got want : Bytes) → check_token env got want ≡ true → got ≢ []
unfolding check_token is_empty
check_token_token env got want h e = ground arith

-- A request whose token is empty or does not hash to the value stored for the drop is refused with
-- 401 by all four handlers, and none of them changes the state: no write, no download, no
-- description, no deletion, not even of an expired drop.
pub wrong_token_refused :
    (env : Env) (now : ℕ) (io : Faults) (req : Request) (body : Bytes) (s : Server) {m : Meta}
    → valid_id req.id ≡ true
    → lookup req.id s.metas ≡ some m
    → (env.sha256_hex req.token ≢ m.token_hash) ⊎ (req.token ≡ [])
    → (handle_put env now io req body s ≡ (fail 401 "unauthorized", s))
      × (handle_get env now io req s ≡ (fail 401 "unauthorized", s))
      × (handle_meta env now req s ≡ (fail 401 "unauthorized", s))
      × (handle_delete env req s ≡ (fail 401 "unauthorized", s))
unfolding handle_put put_found handle_get handle_meta handle_delete
wrong_token_refused env now io req body s {m} v e t =
    let c = check_token_refuses env req.token m.token_hash t in ground arith

-- A drop that the relay does not hold, or an id that is not valid, changes nothing either.
pub unknown_drop_refused :
    (env : Env) (now : ℕ) (io : Faults) (req : Request) (body : Bytes) (s : Server)
    → (valid_id req.id ≡ false) ⊎ (lookup req.id s.metas ≡ none)
    → ((handle_put env now io req body s).1 ≡ s)
      × ((handle_get env now io req s).1 ≡ s)
      × ((handle_meta env now req s).1 ≡ s)
      × ((handle_delete env req s).1 ≡ s)
unfolding handle_put put_found handle_get handle_meta handle_delete
unknown_drop_refused env now io req body s v = ground arith

not_serving_absent :
    (env : Env) (now : ℕ) (io : Faults) (req : Request) (s : Server) {g : Serving}
    → lookup req.id s.metas ≡ none
    → ¬ ((get_open env now io req s).0 ≡ serving g)
unfolding get_open
not_serving_absent env now io req s e h = ground arith

serving_checks :
    (env : Env) (now : ℕ) (io : Faults) (req : Request) (s : Server) (m : Meta) {g : Serving}
    → lookup req.id s.metas ≡ some m
    → (get_open env now io req s).0 ≡ serving g
    → (valid_id req.id ≡ true)
      × (env.sha256_hex req.token ≡ m.token_hash)
      × (check_token env req.token m.token_hash ≡ true)
      × (expired env m now ≡ false)
      × ((m.one_time && m.served_full) ≡ false)
      × (lookup req.id s.bins ≡ some g.file)
      × ((get_open env now io req s).1 ≡ s)
unfolding get_open check_token
serving_checks env now io req s m e h =
    ground (arith, bytes_eq_iff (env.sha256_hex req.token) m.token_hash)

-- Bytes are served only for a valid id whose drop is there, for a token that is not empty and
-- whose hash is the stored one, before the expiry, and unless the drop is one-time and was served.
-- What is served is the stored payload, and opening it changes nothing.
pub serving_allowed :
    (env : Env) (now : ℕ) (io : Faults) (req : Request) (s : Server) {g : Serving}
    → (get_open env now io req s).0 ≡ serving g
    → (m : Meta) × (lookup req.id s.metas ≡ some m)
      × (valid_id req.id ≡ true)
      × (env.sha256_hex req.token ≡ m.token_hash)
      × (req.token ≢ [])
      × (expired env m now ≡ false)
      × ((m.one_time && m.served_full) ≡ false)
      × (lookup req.id s.bins ≡ some g.file)
      × ((get_open env now io req s).1 ≡ s)
serving_allowed env now io req s h = elim (Option-cases (lookup req.id s.metas)) [
  | inl e ↦ absurd (not_serving_absent env now io req s e h)
  | inr (m, e) ↦
      let (v, t, c, x, o, f, q) = serving_checks env now io req s m e h in
      (m, e, v, t, check_token_token env req.token m.token_hash c, x, o, f, q)
]

past :
    (env : Env) (now t : ℕ) (m : Meta)
    → env.parse_time m.expiry_rfc3339 ≡ some t
    → t ≤ now
    → expired env m now ≡ true
unfolding expired
past env now t m p le = ground arith

found_Gone :
    (id : Bytes) (m : Meta) (s : Server)
    → IsSound s
    → lookup id s.metas ≡ some m
    → Gone id (delete_locked m s)
found_Gone id m s h e =
    subst (λ i. Gone i (delete_locked m s)) (ground (arith, h.entry id))
      (delete_locked-Gone m s h.removable)

expired_answers :
    (env : Env) (now : ℕ) (io : Faults) (req : Request) (body : Bytes) (s : Server) {m : Meta}
    → lookup req.id s.metas ≡ some m
    → IsSound s
    → check_token env req.token m.token_hash ≡ true
    → expired env m now ≡ true
    → (handle_put env now io req body s ≡ (fail 410 "expired", delete_locked m s))
      × (handle_get env now io req s ≡ (fail 410 "expired", delete_locked m s))
      × (handle_meta env now req s ≡ (fail 410 "expired", delete_locked m s))
unfolding handle_put put_found handle_get handle_meta
expired_answers env now io req body s e h t x =
    let v : valid_id req.id ≡ true = ground (arith, h.entry req.id) in ground arith

-- In a well-formed state, let a request with the right token, which is not empty and whose hash is
-- not, reach a drop at or after its expiry. The three handlers that read the clock answer with 410,
-- and after each of them nothing is left of the drop: no record, no payload, no token.
pub expired_deleted :
    (env : Env) (now t : ℕ) (io : Faults) (req : Request) (body : Bytes) (s : Server) {m : Meta}
    → IsSound s
    → lookup req.id s.metas ≡ some m
    → env.sha256_hex req.token ≡ m.token_hash
    → req.token ≢ []
    → m.token_hash ≢ []
    → env.parse_time m.expiry_rfc3339 ≡ some t
    → t ≤ now
    → let (r, a) = handle_put env now io req body s in
      let (r', b) = handle_get env now io req s in
      let (r'', c) = handle_meta env now req s in
      (r ≡ fail 410 "expired")
      × (r' ≡ fail 410 "expired")
      × (r'' ≡ fail 410 "expired")
      × Gone req.id a
      × Gone req.id b
      × Gone req.id c
expired_deleted env now t io req body s {m} h e k n w p le =
    let (a, b, c) =
      expired_answers env now io req body s e h
        (check_token_accepts env req.token m.token_hash k n w) (past env now t m p le) in
    let gone = found_Gone req.id m s h e in
    (
      ap (λ x. x.0) a,
      ap (λ x. x.0) b,
      ap (λ x. x.0) c,
      subst (Gone req.id) (sym (ap (λ x. x.1) a)) gone,
      subst (Gone req.id) (sym (ap (λ x. x.1) b)) gone,
      subst (Gone req.id) (sym (ap (λ x. x.1) c)) gone,
    )
