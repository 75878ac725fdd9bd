-- ===== src/Examples/OnRelay.antt =====
-- The relay with one drop: it is created, uploaded and read.
mod Drop
mod Reading
mod Writing
use dero_ghost_drop.Base.{[], ◌∷◌}
use dero_ghost_drop.Relay.Trace.{create}
use dero_ghost_drop.Relay.Safety.Runs.{run-IsSound, run-empty-IsSound}
