-- ===== src/Examples/OnStorage.antt =====
-- The memory provider with a quota of ten bytes.
use dero_ghost_drop.Base.{
  ◌≡◌, refl, true, false, some, [], ◌∷◌, Bytes, codes, lookup, bytes_eq, arith, total,
}
use dero_ghost_drop.Base.Int.{pos, ◌-ℤ◌, ◌+ℤ◌}
use dero_ghost_drop.Storage.Types.{ok, Reader, is_past}
use dero_ghost_drop.Storage.Ids.{validate_id}
use dero_ghost_drop.Storage.Memory.{
  Item, Provider, put, put_sized, put_data, put_locked, read_all, old_size, get_peek, get_finish,
}
use dero_ghost_drop.Storage.Memory.Sound.{IsSound, blob_size}
use dero_ghost_drop.Storage.Memory.Runs.{puts, gets, run, run_calls-IsSound}
use dero_ghost_drop.Storage.Memory.Race.{overlapping_gets_miscount}

abbrev id : Bytes
id = codes "a1"

abbrev none_stored : Provider
none_stored = record { items = []; used = pos 0; max_bytes = 10 }

none_stored-IsSound : IsSound none_stored
unfolding total
none_stored-IsSound = record { unique = tt; accounted = refl; within = omega arith }

abbrev reader : Reader
reader = record { bytes = 7 ∷ 8 ∷ 9 ∷ []; fails = false }

put_ok : (put false id reader (pos 3) (some 5) none_stored).0 ≡ ok tt
unfolding put put_sized put_data put_locked read_all old_size validate_id bytes_eq lookup ◌-ℤ◌ ◌+ℤ◌
put_ok = refl

live : is_past (some 5) 4 ≡ false
unfolding is_past
live = refl

id_valid : validate_id id ≡ true
unfolding validate_id bytes_eq
id_valid = refl

run_calls-IsSound_example :
    IsSound (run (puts false id reader (pos 3) (some 5) ∷ gets false id (pos 0) 9 ∷ []) none_stored)
run_calls-IsSound_example =
    run_calls-IsSound (puts false id reader (pos 3) (some 5) ∷ gets false id (pos 0) 9 ∷ [])
      none_stored none_stored-IsSound

abbrev item : Item
item = record { bytes = 7 ∷ 8 ∷ 9 ∷ []; expiry = some 5 }

abbrev one_stored : Provider
one_stored = record { items = (id, item) ∷ []; used = pos 3; max_bytes = 10 }

one_stored-IsSound : IsSound one_stored
unfolding total lookup
one_stored-IsSound = record { unique = (refl, tt); accounted = refl; within = omega arith }

peek : get_peek id one_stored ≡ some item
unfolding get_peek lookup bytes_eq
peek = refl

past : is_past (some 5) 9 ≡ true
unfolding is_past
past = refl

overlapping_gets_miscount_example :
    let q = (get_finish id (pos 0) 9 item (get_finish id (pos 0) 9 item one_stored).1).1 in
    (q.used ≡ pos (total blob_size q.items) -ℤ pos 3) × (¬ IsSound q)
overlapping_gets_miscount_example =
    overlapping_gets_miscount id (pos 0) (pos 0) 9 item one_stored one_stored-IsSound peek past
      (omega arith)
