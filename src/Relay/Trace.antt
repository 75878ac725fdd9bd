-- ===== src/Relay/Trace.antt =====
-- Runs of the relay: any sequence of locked steps, the two halves of concurrent downloads included.
use dero_ghost_drop.Base.{ℕ, false, List, [], ◌∷◌, Option, Bytes}
use dero_ghost_drop.Relay.Types.{Env, Config, Server, Request, Faults}
use dero_ghost_drop.Relay.Handlers.{
  Body, handle_create, handle_put, get_open, Serving, get_serve, get_close, handle_meta,
  handle_delete, sweep, restart,
}

pub data Event : Type 0 where
  create : Config → ℕ → Option Bytes → Faults → Body → Event
  put : ℕ → Faults → Request → Bytes → Event
  open_get : ℕ → Faults → Request → Event
  serve_get : Request → Bytes → Event
  close_get : Serving → Event
  describe : ℕ → Request → Event
  delete : Request → Event
  sweep_at : ℕ → Event
  restarted : Event

abbrev pub empty : Server
empty = record {
  metas = [];
  bins = [];
  tokens = [];
  bytes_up = 0;
  bytes_down = 0;
  meta_stays = false;
  bin_stays = false;
}

unfoldable pub step : Env → Event → Server → Server
step env (create cfg now token io body) s = (handle_create env cfg now token io body s).1
step env (put now io req body) s = (handle_put env now io req body s).1
step env (open_get now io req) s = (get_open env now io req s).1
step env (serve_get req file) s = (get_serve env req file s).1
step env (close_get g) s = get_close g s
step env (describe now req) s = (handle_meta env now req s).1
step env (delete req) s = (handle_delete env req s).1
step env (sweep_at now) s = (sweep env now s).0
step env restarted s = restart s

unfoldable pub run : Env → List Event → Server → Server
unfolding step
run env [] s = s
run env (e ∷ es) s = run env es (step env e s)
