-- ===== src/Examples/OnRelay/Writing.antt =====
-- Creations and uploads, the limiter, and runs.
use dero_ghost_drop.Base.{
  ℕ, ◌<◌, suc, ◌-◌, ◌^◌, ◌≡◌, ◌≢◌, refl, ap, true, false, some, [], ◌∷◌, Bytes, codes, length,
  lookup, bytes_eq, arith, total,
}
use dero_ghost_drop.Base.Int.{pos}
use dero_ghost_drop.Relay.Types.{CreateRequest, Meta, Server, created, uploaded}
use dero_ghost_drop.Examples.OnRelay.Drop.{
  env, cfg, sent, declared, id, token, meta, ask, req, body, creation, upload, declared-IsSound,
  sent-IsSound,
}
use dero_ghost_drop.Relay.Handlers.{
  get_open, serving, Serving, get_close, handle_put, handle_meta, handle_delete, handle_create,
  parsed,
}
use dero_ghost_drop.Relay.Ids.{valid_id}
use dero_ghost_drop.Relay.Disk.{check_token, expired, is_empty, stored_bytes}
use dero_ghost_drop.Relay.Trace.{run, restarted}
use dero_ghost_drop.Relay.LargestSize.{largest_size_stores_nothing}
use dero_ghost_drop.Relay.Safety.Sound.{IsSound}
use dero_ghost_drop.Relay.Safety.Runs.{run-IsSound}
use dero_ghost_drop.Relay.Isolation.{SameDrop, other_drops_untouched}
use dero_ghost_drop.Relay.Upload.{acked, grown, handle_put-grown}
use dero_ghost_drop.Relay.Cases.{is_ack}
use dero_ghost_drop.Relay.Create.{RefusedOrCreated, create_all_or_nothing, quota_bypassed}
use dero_ghost_drop.Relay.Download.{healthy, download_after_upload}

run-IsSound_example : IsSound (run env (creation ∷ restarted ∷ upload ∷ []) sent)
run-IsSound_example =
    run-IsSound env (creation ∷ restarted ∷ upload ∷ []) sent (tt, (tt, (refl, tt))) sent-IsSound

id_valid : valid_id id ≡ true
unfolding valid_id bytes_eq
id_valid = refl

declared_meta : lookup id declared.metas ≡ some (meta 0)
unfolding lookup bytes_eq
declared_meta = refl

declared_bin : lookup id declared.bins ≡ some []
unfolding lookup bytes_eq
declared_bin = refl

right : check_token env token (meta 0).token_hash ≡ true
unfolding check_token is_empty bytes_eq
right = refl

live : expired env (meta 0) 3 ≡ false
unfolding expired
live = refl

live_later : expired env (meta 0) 4 ≡ false
unfolding expired
live_later = refl

all_live : (m : Meta) → lookup id declared.metas ≡ some m → expired env m 3 ≡ false
unfolding expired lookup bytes_eq
all_live m e = ground arith

all_small : (m : Meta) → lookup id declared.metas ≡ some m → m.size_bytes < 2 ^ 63 - 1
unfolding lookup bytes_eq
all_small m e = ground arith

handle_put-grown_example :
    let (r, t) = handle_put env 3 healthy req body declared in
    acked id t ≡ grown (is_ack r) body (acked id declared)
handle_put-grown_example =
    handle_put-grown env 3 healthy req body declared declared-IsSound all_live all_small

download_after_upload_example :
    let (r, after) = handle_put env 3 healthy req body declared in
    (r ≡ uploaded id (length body) true)
    × (g : Serving) × (get_open env 4 healthy req after ≡ (serving g, after))
    × (g.file ≡ body)
download_after_upload_example =
    download_after_upload env 3 req body declared (meta 0) [] declared-IsSound id_valid
      declared_meta declared_bin right live refl refl refl (omega arith) 4 req refl right live_later
      refl

create_all_or_nothing_example :
    let (r, t) = handle_create env cfg 3 (some token) healthy (parsed ask) sent in
    RefusedOrCreated env cfg 3 ask sent r t
create_all_or_nothing_example = create_all_or_nothing env cfg 3 (some token) healthy ask sent refl

abbrev large : CreateRequest
large = record ask { id = codes "zz"; size_bytes = pos (suc (2 ^ 63 - 2)) }

quota_bypassed_example :
    (handle_create env cfg 3 (some token) healthy (parsed large) sent).0
    ≡ created (codes "zz") token
unfolding lookup bytes_eq valid_id stored_bytes total
quota_bypassed_example =
    quota_bypassed env cfg 3 token healthy large sent 100 (2 ^ 63 - 2) 5 refl refl refl refl
      (omega arith) refl refl refl refl (omega arith) (omega arith) (omega arith)

abbrev other : Bytes
other = codes "zz"

abbrev served : Serving
served = record { id = id; file = body; one_time = true; full_read = true }

abbrev first : Bytes → ℕ
first [] = 0
first (c ∷ cs) = c

id_ne_other : id ≢ other
id_ne_other e = omega (arith, ap first e)

named : (i : Bytes) (m : Meta) → lookup i sent.metas ≡ some m → m.id ≡ i
named i m e = ground (arith, sent-IsSound.entry i)

other_drops_untouched_example :
    SameDrop other sent (handle_create env cfg 3 (some token) healthy (parsed ask) sent).1
    × SameDrop other sent (handle_put env 3 healthy req body sent).1
    × SameDrop other sent (get_open env 3 healthy req sent).1
    × SameDrop other sent (get_close served sent)
    × SameDrop other sent (handle_meta env 3 req sent).1
    × SameDrop other sent (handle_delete env req sent).1
other_drops_untouched_example =
    other_drops_untouched env other sent named cfg 3 (some token) healthy ask req body served
      id_ne_other id_ne_other id_ne_other

abbrev largest : Server
largest = record declared { metas = (id, record (meta 0) { size_bytes = 2 ^ 63 - 1 }) ∷ [] }

largest_meta : lookup id largest.metas ≡ some (record (meta 0) { size_bytes = 2 ^ 63 - 1 })
unfolding lookup bytes_eq
largest_meta = refl

largest_size_stores_nothing_example :
    let (r, t) = handle_put env 3 healthy req body largest in
    (r ≡ uploaded id 0 false) × (lookup id t.bins ≡ some [])
unfolding expired
largest_size_stores_nothing_example =
    largest_size_stores_nothing env 3 req body largest id_valid largest_meta declared_bin right live
      refl refl refl
