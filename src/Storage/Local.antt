-- ===== src/Storage/Local.antt =====
-- internal/storage/local.go: the provider that keeps its blobs in a directory, {id}.bin with
-- {id}.meta.json beside it. A file is made under a temporary name and renamed.
pub mod Copy
pub mod Sound
pub mod Lawful
pub mod Refused
use dero_ghost_drop.Base.{
  ℕ, zero, suc, ◌+◌, ◌-◌, Bool, true, false, not, Option, none, some, List, [], ◌∷◌, ◌++◌, Bytes,
  Map, lookup, insert, remove, total, ◌==◌, ltb, ◌&&◌, ◌||◌, length, take, drop, map, if◌then◌else◌,
}
use dero_ghost_drop.Base.Int.{ℤ, pos, negsuc, ltb_ℤ, add_int64}
use dero_ghost_drop.Storage.Types.{
  Error, bad_id, cancelled, negative_size, quota, short_read, not_found, expired, out_of_range,
  io_error, unfinished, Result, ok, err, Reader, is_past,
}
use dero_ghost_drop.Storage.Ids.{validate_id}

-- localMeta
pub record LocalMeta : Type 0 where
  pub size : ℕ
  pub expiry : Option ℕ

-- The directory, whether os.Remove fails on its records and payloads, and maxBytes.
pub record Local : Type 0 where
  pub metas : Map LocalMeta
  pub bins : Map Bytes
  pub max_bytes : ℕ
  pub meta_stays : Bool
  pub bin_stays : Bool

-- What fails in one call. `done 0` is ctx.Err() on entry; the rounds of the copy count from 1.
pub record Faults : Type 0 where
  pub done : ℕ → Bool
  pub create_fails : Bool
  pub write_fails : ℕ → Bool
  pub close_fails : Bool
  pub meta_fails : Bool
  pub rename_bin_fails : Bool
  pub rename_meta_fails : Bool
  pub read_meta_fails : Bool
  pub open_fails : Bool
  pub seek_fails : Bool

unfoldable pub copy_piece : ℕ
copy_piece = 1048576

-- dirUsed
unfoldable pub dir_used : Local → ℕ
dir_used p = total length p.bins

-- The two calls of os.Remove, whose errors are ignored.
unfoldable pub remove_files : Bytes → Local → Local
remove_files id p = record p {
  bins = if p.bin_stays then p.bins else remove id p.bins;
  metas = if p.meta_stays then p.metas else remove id p.metas;
}

-- readMeta: `none` where there is no record.
unfoldable pub read_meta : Faults → Bytes → Local → Result (Option LocalMeta)
read_meta f id p = if f.read_meta_fails then err io_error else ok (lookup id p.metas)

-- The loop of Put: io.ReadFull of a piece, and its Write, until `size` bytes are there.
unfoldable pub copy_loop : ℕ → Faults → ℕ → Bytes → Bytes → ℕ → Result Bytes
copy_loop zero f i src out size = err unfinished
copy_loop (suc fuel) f i src out size =
    let want = if ltb (size - length out) copy_piece then size - length out else copy_piece in
    let piece = take want src in
    let rest = copy_loop fuel f (suc i) (drop want src) (out ++ piece) size in
    if not (ltb (length out) size)
    then ok out
    else if f.done i
    then err cancelled
    else if ltb 0 (length piece) && f.write_fails i
    then err io_error
    else if ltb (length piece) want
    then err short_read
    else rest

-- Put behind the copy: the record beside the temporary file, and the two renames. Where the second
-- fails, the payload goes, if it can be removed.
unfoldable pub put_renamed :
    Faults → Bytes → Bytes → ℕ → Option ℕ → Local → Result (Unit {0}) × Local
put_renamed f id out size expiry p =
    let p' = record p { bins = insert id out p.bins } in
    if f.close_fails || f.meta_fails || f.rename_bin_fails
    then (err io_error, p)
    else if f.rename_meta_fails
    then (err io_error, record p' { bins = if p.bin_stays then p'.bins else remove id p'.bins })
    else (ok tt, record p' { metas = insert id (record { size = size; expiry = expiry }) p'.metas })

unfoldable pub put_copied :
    Faults → Bytes → ℕ → Option ℕ → Local → Result Bytes → Result (Unit {0}) × Local
put_copied f id size expiry p (err e) = (err e, p)
put_copied f id size expiry p (ok out) = put_renamed f id out size expiry p

unfoldable pub put_sized :
    Faults → Bytes → Reader → ℤ → Option ℕ → Local → Result (Unit {0}) × Local
put_sized f id r (negsuc n) expiry p = (err negative_size, p)
put_sized f id r (pos size) expiry p =
    if ltb p.max_bytes size || ltb_ℤ (pos p.max_bytes) (add_int64 (dir_used p) size)
    then (err quota, p)
    else if f.create_fails
    then (err io_error, p)
    else put_copied f id size expiry p (copy_loop (suc size) f 1 r.bytes [] size)

unfoldable pub put : Faults → Bytes → Reader → ℤ → Option ℕ → Local → Result (Unit {0}) × Local
put f id r size expiry p =
    if not (validate_id id)
    then (err bad_id, p)
    else if f.done 0
    then (err cancelled, p)
    else put_sized f id r size expiry p

-- Get behind the expiry: os.Open, the offset, the Seek. The reader delivers what follows.
unfoldable pub get_open : Faults → Bytes → ℤ → LocalMeta → Local → Result Bytes
get_open f id offset m p = if f.open_fails then err io_error else elim (lookup id p.bins) [
  | none ↦ err not_found
  | some file ↦ elim offset [
    | negsuc n ↦ err out_of_range
    | pos off ↦
        if ltb m.size off
        then err out_of_range
        else if ltb 0 off && f.seek_fails
        then err io_error
        else ok (drop off file)
  ]
]

unfoldable pub get_found :
    Faults → Bytes → ℤ → ℕ → Local → Result (Option LocalMeta) → Result Bytes × Local
get_found f id offset now p (err e) = (err e, p)
get_found f id offset now p (ok none) = (err not_found, p)
get_found f id offset now p (ok (some m)) =
    if is_past m.expiry now then (err expired, remove_files id p) else (get_open f id offset m p, p)

unfoldable pub get : Faults → Bytes → ℤ → ℕ → Local → Result Bytes × Local
get f id offset now p =
    if f.done 0
    then (err cancelled, p)
    else if not (validate_id id)
    then (err bad_id, p)
    else get_found f id offset now p (read_meta f id p)

unfoldable pub delete : Faults → Bytes → Local → Result (Unit {0}) × Local
delete f id p =
    if f.done 0
    then (err cancelled, p)
    else if not (validate_id id)
    then (err bad_id, p)
    else (ok tt, remove_files id p)

-- os.Stat of the payload
unfoldable pub bin_present : Faults → Bytes → Local → Result Bool
bin_present f id p =
    if f.open_fails
    then err io_error
    else elim (lookup id p.bins) [ none ↦ ok false | some file ↦ ok true ]

unfoldable pub exists_found :
    Faults → Bytes → ℕ → Local → Result (Option LocalMeta) → Result Bool × Local
exists_found f id now p (err e) = (err e, p)
exists_found f id now p (ok none) = (ok false, p)
exists_found f id now p (ok (some m)) =
    if is_past m.expiry now then (ok false, remove_files id p) else (bin_present f id p, p)

unfoldable pub exists : Faults → Bytes → ℕ → Local → Result Bool × Local
exists f id now p =
    if f.done 0 then (err cancelled, p) else exists_found f id now p (read_meta f id p)

unfoldable pub stat_found :
    Faults → Bytes → ℕ → Local → Result (Option LocalMeta) → Result (ℕ × Option ℕ) × Local
stat_found f id now p (err e) = (err e, p)
stat_found f id now p (ok none) = (err not_found, p)
stat_found f id now p (ok (some m)) =
    if is_past m.expiry now then (err expired, remove_files id p) else (ok (m.size, m.expiry), p)

unfoldable pub stat : Faults → Bytes → ℕ → Local → Result (ℕ × Option ℕ) × Local
stat f id now p = if f.done 0 then (err cancelled, p) else stat_found f id now p (read_meta f id p)

-- sweep, over the records that os.ReadDir has listed
unfoldable pub sweep_metas : ℕ → Map LocalMeta → Local → Local
sweep_metas now [] p = p
sweep_metas now ((id, m) ∷ ms) p =
    let rest = sweep_metas now ms in
    if is_past m.expiry now then rest (remove_files id p) else rest p

unfoldable pub health : Faults → ℕ → Local → Result (Unit {0}) × Local
health f now p =
    if f.done 0
    then (err cancelled, p)
    else if f.open_fails
    then (err io_error, p)
    else (ok tt, sweep_metas now p.metas p)
