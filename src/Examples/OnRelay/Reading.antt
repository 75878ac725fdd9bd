-- ===== src/Examples/OnRelay/Reading.antt =====
-- Downloads, queries and sweeps of the drop.
use dero_ghost_drop.Base.{
  ℕ, ◌≡◌, ◌≢◌, inl, ap, [], ◌∷◌, arith, refl, true, false, some, Bytes, codes, length, lookup,
  bytes_eq, ◌&&◌, ◌+◌,
}
use dero_ghost_drop.Relay.Types.{Meta, Request, fail}
use dero_ghost_drop.Examples.OnRelay.Drop.{
  env, sent, id, token, meta, req, healthy, body, sent-IsSound,
}
use dero_ghost_drop.Relay.Handlers.{
  get_open, open_found, serving, Serving, handle_get, handle_put, handle_meta, handle_delete, sweep,
}
use dero_ghost_drop.Relay.Ids.{valid_id}
use dero_ghost_drop.Relay.Disk.{check_token, expired, is_empty}
use dero_ghost_drop.Strings.{trim_space}
use dero_ghost_drop.Relay.Access.{wrong_token_refused, serving_allowed, expired_deleted}
use dero_ghost_drop.Relay.OneTime.{Gone, ranged_get_keeps}
use dero_ghost_drop.Relay.Sweep.{swept, sweep_exact}

abbrev first : Bytes → ℕ
first [] = 0
first (c ∷ cs) = c

abbrev stranger : Request
stranger = record req { token = codes "X" }

abbrev ranged : Request
ranged = record req { range = codes "bytes=0-" }

abbrev other : Request
other = record req { id = codes "zz" }

abbrev served : Serving
served = record { id = id; file = body; one_time = true; full_read = true }

abbrev served_range : Serving
served_range = record served { full_read = false }

id_valid : valid_id id ≡ true
unfolding valid_id bytes_eq
id_valid = refl

sent_meta : lookup id sent.metas ≡ some (meta 3)
unfolding lookup bytes_eq
sent_meta = refl

wrong : stranger.token ≢ token
wrong e = omega (arith, ap first e)

not_empty : token ≢ []
not_empty e = omega (arith, ap length e)

not_blank : trim_space ranged.range ≢ []
unfolding trim_space
not_blank e = omega (arith, ap length e)

opens : (get_open env 3 healthy req sent).0 ≡ serving served
unfolding get_open open_found lookup bytes_eq valid_id check_token is_empty expired trim_space
opens = refl

opens_range : (get_open env 3 healthy ranged sent).0 ≡ serving served_range
unfolding get_open open_found lookup bytes_eq valid_id check_token is_empty expired trim_space
opens_range = refl

wrong_token_refused_example :
    (handle_put env 3 healthy stranger body sent ≡ (fail 401 "unauthorized", sent))
    × (handle_get env 3 healthy stranger sent ≡ (fail 401 "unauthorized", sent))
    × (handle_meta env 3 stranger sent ≡ (fail 401 "unauthorized", sent))
    × (handle_delete env stranger sent ≡ (fail 401 "unauthorized", sent))
wrong_token_refused_example =
    wrong_token_refused env 3 healthy stranger body sent id_valid sent_meta (inl wrong)

serving_allowed_example :
    (m : Meta) × (lookup id sent.metas ≡ some m)
    × (valid_id id ≡ true)
    × (token ≡ m.token_hash)
    × (token ≢ [])
    × (expired env m 3 ≡ false)
    × ((m.one_time && m.served_full) ≡ false)
    × (lookup id sent.bins ≡ some body)
    × ((get_open env 3 healthy req sent).1 ≡ sent)
serving_allowed_example = serving_allowed env 3 healthy req sent opens

expired_deleted_example :
    let (r, a) = handle_put env 9 healthy req body sent in
    let (r', b) = handle_get env 9 healthy req sent in
    let (r'', c) = handle_meta env 9 req sent in
    (r ≡ fail 410 "expired")
    × (r' ≡ fail 410 "expired")
    × (r'' ≡ fail 410 "expired")
    × Gone id a
    × Gone id b
    × Gone id c
expired_deleted_example =
    expired_deleted env 9 5 healthy req body sent sent-IsSound sent_meta refl not_empty not_empty
      refl (omega arith)

ranged_get_keeps_example :
    let t = (handle_get env 3 healthy ranged sent).1 in
    (t.metas ≡ sent.metas) × (t.bins ≡ sent.bins) × (t.tokens ≡ sent.tokens)
ranged_get_keeps_example = ranged_get_keeps env 3 healthy ranged sent opens_range not_blank

sweep_exact_example :
    ((j : Bytes) → lookup j (sweep env 9 sent).0.metas ≡ swept env 9 (lookup j sent.metas))
    × (length (sweep env 9 sent).0.metas + (sweep env 9 sent).1 ≡ length sent.metas)
sweep_exact_example = sweep_exact env 9 sent sent-IsSound
