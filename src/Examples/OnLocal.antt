-- ===== src/Examples/OnLocal.antt =====
-- A directory with one blob, and a Put whose second rename fails.
use dero_ghost_drop.Base.{
  ◌≡◌, ◌≢◌, refl, true, false, none, [], ◌∷◌, arith, Bytes, codes, total, bytes_eq, lookup,
}
use dero_ghost_drop.Base.Int.{pos, add_int64}
use dero_ghost_drop.Storage.Types.{Reader, ok, err, io_error, unfinished}
use dero_ghost_drop.Storage.Ids.{validate_id}
use dero_ghost_drop.Storage.Local.{
  Local, put, put_sized, put_copied, put_renamed, copy_loop, copy_piece, dir_used,
}
use dero_ghost_drop.Storage.Local.Copy.{copy_ends}
use dero_ghost_drop.Storage.Local.Lawful.{no_faults}
use dero_ghost_drop.Storage.Local.Sound.{view}
use dero_ghost_drop.Storage.Local.Refused.{failed_rename_loses}

abbrev id : Bytes
id = codes "a1"

abbrev held : Local
held = record {
  metas = (id, record { size = 2; expiry = none }) ∷ [];
  bins = (id, 5 ∷ 6 ∷ []) ∷ [];
  max_bytes = 100;
  meta_stays = false;
  bin_stays = false;
}

abbrev reader : Reader
reader = record { bytes = 7 ∷ 8 ∷ 9 ∷ []; fails = false }

put_done : (put no_faults id reader (pos 3) none held).0 ≡ ok tt
unfolding put put_sized put_copied put_renamed copy_loop copy_piece dir_used total validate_id
    bytes_eq add_int64
put_done = refl

failed_rename_loses_example :
    let (a, q) = put (record no_faults { rename_meta_fails = true }) id reader (pos 3) none held in
    (a ≡ err io_error)
    × (view q id ≡ none)
    × (lookup id q.metas ≡ lookup id held.metas)
    × ((j : Bytes) → id ≢ j → view q j ≡ view held j)
failed_rename_loses_example =
    failed_rename_loses no_faults id reader (pos 3) none held refl put_done

copy_ends_example : copy_loop 4 no_faults 1 (7 ∷ 8 ∷ 9 ∷ []) [] 3 ≢ err unfinished
copy_ends_example = copy_ends 4 no_faults 1 (7 ∷ 8 ∷ 9 ∷ []) [] 3 (omega arith) (omega arith)
