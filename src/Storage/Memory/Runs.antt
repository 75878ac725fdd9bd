-- ===== src/Storage/Memory/Runs.antt =====
-- The accounting holds along any sequence of whole calls.
use dero_ghost_drop.Base.{ℕ, Bool, Option, List, [], ◌∷◌, Bytes}
use dero_ghost_drop.Base.Int.{ℤ}
use dero_ghost_drop.Storage.Types.{Reader}
use dero_ghost_drop.Storage.Memory.{Provider, put, get, delete, exists, stat}
use dero_ghost_drop.Storage.Memory.Sound.{
  IsSound, put-IsSound, get-IsSound, delete-IsSound, exists-IsSound, stat-IsSound,
}

pub data Call : Type 0 where
  puts : Bool → Bytes → Reader → ℤ → Option ℕ → Call
  gets : Bool → Bytes → ℤ → ℕ → Call
  deletes : Bool → Bytes → Call
  asks : Bool → Bytes → ℕ → Call
  stats : Bool → Bytes → ℕ → Call

unfoldable pub call : Call → Provider → Provider
call (puts done id r size expiry) p = (put done id r size expiry p).1
call (gets done id offset now) p = (get done id offset now p).1
call (deletes done id) p = (delete done id p).1
call (asks done id now) p = (exists done id now p).1
call (stats done id now) p = (stat done id now p).1

unfoldable pub run : List Call → Provider → Provider
unfolding call
run [] p = p
run (c ∷ cs) p = run cs (call c p)

call-IsSound : (c : Call) (p : Provider) → IsSound p → IsSound (call c p)
unfolding call
call-IsSound (puts done id r size expiry) p h = put-IsSound done id r size expiry p h
call-IsSound (gets done id offset now) p h = get-IsSound done id offset now p h
call-IsSound (deletes done id) p h = delete-IsSound done id p h
call-IsSound (asks done id now) p h = exists-IsSound done id now p h
call-IsSound (stats done id now) p h = stat-IsSound done id now p h

-- Along any calls that do not overlap, `used` stays the exact sum of the stored blobs, no id is
-- stored twice, and the sum stays within the quota.
pub run_calls-IsSound : (cs : List Call) (p : Provider) → IsSound p → IsSound (run cs p)
unfolding run
run_calls-IsSound [] p h = h
run_calls-IsSound (c ∷ cs) p h = run_calls-IsSound cs (call c p) (call-IsSound c p h)
