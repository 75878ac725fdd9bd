-- ===== src/Relay/Safety/Runs.antt =====
-- The relay's state is well-formed after any run.
use dero_ghost_drop.Base.{◌≡◌, refl, false, List, [], ◌∷◌, lookup}
use dero_ghost_drop.Relay.Types.{Env, Server}
use dero_ghost_drop.Relay.Trace.{
  Event, create, put, open_get, serve_get, close_get, describe, delete, sweep_at, restarted, empty,
  step, run,
}
use dero_ghost_drop.Relay.Handlers.{get_serve}
use dero_ghost_drop.Relay.Safety.Sound.{IsSound, IsSound-counters}
use dero_ghost_drop.Relay.Safety.Keeps.{
  handle_create-IsSound, handle_put-IsSound, get_open-IsSound, get_close-IsSound,
  handle_meta-IsSound, handle_delete-IsSound, sweep-IsSound,
}
use dero_ghost_drop.Relay.Safety.Restart.{restart-IsSound}

-- The truncation that an upload may ask for does not fail.
abbrev pub Truncates : Event → Type 0
Truncates (put now io req body) = io.truncate_fails ≡ false
Truncates _ = Unit

abbrev pub AllTruncate : List Event → Type 0
AllTruncate [] = Unit
AllTruncate (e ∷ es) = Truncates e × AllTruncate es

pub step-IsSound :
    (env : Env) (e : Event) (s : Server) → Truncates e → IsSound s → IsSound (step env e s)
unfolding step get_serve
step-IsSound env (create cfg now token io body) s tr h =
    handle_create-IsSound env cfg now token io body s h
step-IsSound env (put now io req body) s tr h = handle_put-IsSound env now io req body s h tr
step-IsSound env (open_get now io req) s tr h = get_open-IsSound env now io req s h
step-IsSound env (serve_get req file) s tr h = IsSound-counters s s.bytes_up _ h
step-IsSound env (close_get g) s tr h = get_close-IsSound env g s h
step-IsSound env (describe now req) s tr h = handle_meta-IsSound env now req s h
step-IsSound env (delete req) s tr h = handle_delete-IsSound env req s h
step-IsSound env (sweep_at now) s tr h = sweep-IsSound env now s h
step-IsSound env restarted s tr h = restart-IsSound s h

empty-IsSound : IsSound empty
unfolding lookup
empty-IsSound = record {
  entry = λ id. tt;
  metas_unique = tt;
  bins_unique = tt;
  tokens_unique = tt;
  removable = (refl, refl);
}

-- From a well-formed state, any sequence of creations, uploads, downloads in overlapping parts,
-- queries, deletions, sweeps and restarts ends in a well-formed state: a drop has its record, payload
-- and token hash or none of them, its id is valid, and the payload holds the acknowledged bytes and
-- at most the declared size. Opening, seeking, copying and saving may fail in every call; that the
-- files of the data directory can be removed is part of the well-formedness, and that no truncation
-- fails is a hypothesis, since the source ignores both errors.
pub run-IsSound :
    (env : Env) (es : List Event) (s : Server) → AllTruncate es → IsSound s → IsSound (run env es s)
unfolding run
run-IsSound env [] s tr h = h
run-IsSound env (e ∷ es) s tr h =
    run-IsSound env es (step env e s) tr.1 (step-IsSound env e s tr.0 h)

pub run-empty-IsSound : (env : Env) (es : List Event) → AllTruncate es → IsSound (run env es empty)
run-empty-IsSound env es tr = run-IsSound env es empty tr empty-IsSound
