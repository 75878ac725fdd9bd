-- ===== src/Drops/Retrieve.antt =====
-- internal/drops/manager.go: Retrieve. The file at dstPath is an argument and a result; `none` is no
-- file. The clock is read once.
use dero_ghost_drop.Base.{
  ℕ, Bool, true, false, not, ◌||◌, ◌&&◌, Option, none, some, Bytes, codes, bytes_eq, if◌then◌else◌,
}
use dero_ghost_drop.Base.Int.{pos}
use dero_ghost_drop.Storage.Types as Storage
use dero_ghost_drop.Storage.Store.{Store}
use dero_ghost_drop.Crypto.Gd01.{
  Opened, opened, refused, OpenError, bad_header, bad_magic, bad_nonce, truncated_length,
  bad_length, truncated_chunk, auth_failed, unfinished, open_file,
}
use dero_ghost_drop.Manifest.Types.{Manifest}
use dero_ghost_drop.Manifest.Validate.{is_empty, is_after}
use dero_ghost_drop.Database as Database
use dero_ghost_drop.Drops.Types.{
  status_name, delivered, retrieved, verified, expired, failed, Result, ok, err, Library,
  RetrieveOpts, no_temp, past_expiry, cancelled, storage, opening, mismatch,
}
use dero_ghost_drop.Drops.Locks.{resolve_key}
use dero_ghost_drop.Drops.Manager.{Manager, Faults, set_status, write, get_manifest}

-- OpenFile fails before it makes the destination.
unfoldable pub in_header : OpenError → Bool
in_header bad_header = true
in_header bad_magic = true
in_header bad_nonce = true
in_header truncated_length = false
in_header bad_length = false
in_header truncated_chunk = false
in_header auth_failed = false
in_header unfinished = false

module _ (lib : Library) (S : Store) where
  -- OpenFile with its destination, which it removes when it fails behind the header.
  unfoldable pub open_into : Faults S → Option Bytes → Opened → Result Bytes × Option Bytes
  open_into f dst (refused e) = (err opening, if in_header e || f.dst_open then dst else none)
  open_into f dst (opened plain) =
      if f.dst_open
      then (err opening, dst)
      else if f.dst_write
      then (err opening, none)
      else (ok plain, some plain)

  abbrev pub Retrieved : Type 0
  Retrieved = Result (Unit {0}) × Option Bytes × Manager S

  -- Under man.OneTime, an error being ignored
  unfoldable pub delete_once : Faults S → Bytes → Bool → Manager S → Manager S
  delete_once f id false m = m
  delete_once f id true m = record m { store = (S.delete f.store_delete id m.store).1 }

  -- The status VERIFIED and what the database is told.
  unfoldable pub marked_verified : Faults S → Bytes → ℕ → Manager S → Manager S
  marked_verified f id now m =
      write S (Database.add_event (f.db 8) id (codes "retrieved") (codes "hash=ok") now) (
        write S (Database.update_status (f.db 7) id (status_name verified))
          (write S (Database.set_verified (f.db 6) id true) (set_status S (f.db 5) id verified m)))

  -- From the status VERIFIED on.
  unfoldable pub retrieve_verified : Faults S → Bytes → Manifest → ℕ → Manager S → Manager S
  retrieve_verified f id man now m = delete_once f id man.one_time (marked_verified f id now m)

  -- From Sha256HexFile on.
  unfoldable pub retrieve_opened :
      Faults S → Bytes → Manifest → ℕ → Bytes → Option Bytes → Manager S → Retrieved
  retrieve_opened f id man now plain dst m =
      if f.dst_read
      then (err opening, dst, m)
      else if not (is_empty man.plaintext_hash)
          && not (bytes_eq (lib.hash plain) man.plaintext_hash)
      then (err mismatch, dst, set_status S (f.db 4) id failed m)
      else (ok tt, dst, retrieve_verified f id man now m)

  unfoldable pub retrieve_decrypted :
      Faults S → Bytes → Manifest → ℕ → Result Bytes × Option Bytes → Manager S → Retrieved
  retrieve_decrypted f id man now (err e, dst) m = (err e, dst, set_status S (f.db 2) id failed m)
  retrieve_decrypted f id man now (ok plain, dst) m =
      retrieve_opened f id man now plain dst (set_status S (f.db 3) id retrieved m)

  -- From the answer of the provider on.
  unfoldable pub retrieve_fetched :
      Faults S
      → Bytes
      → Manifest
      → Bytes
      → ℕ
      → Option Bytes
      → Storage.Result Bytes × S.State
      → Manager S
      → Retrieved
  retrieve_fetched f id man key now dst (Storage.err e, s) m =
      (err (storage e), dst, record m { store = s })
  retrieve_fetched f id man key now dst (Storage.ok enc, s) m =
      if f.temp_open || f.temp_read
      then (err no_temp, dst, record m { store = s })
      else retrieve_decrypted f id man now (open_into f dst (open_file lib.aead key enc))
          (record m { store = s })

  -- From the status DELIVERED on.
  unfoldable pub retrieve_delivered :
      Faults S → Bytes → Manifest → Bytes → ℕ → Option Bytes → Manager S → Retrieved
  retrieve_delivered f id man key now dst m =
      if f.temp
      then (err no_temp, dst, m)
      else retrieve_fetched f id man key now dst (S.get f.store id (pos 0) now m.store) m

  unfoldable pub retrieve_keyed :
      Faults S → Bytes → Manifest → Result Bytes → ℕ → Option Bytes → Manager S → Retrieved
  retrieve_keyed f id man (err e) now dst m = (err e, dst, m)
  retrieve_keyed f id man (ok key) now dst m =
      if f.cancelled
      then (err cancelled, dst, m)
      else retrieve_delivered f id man key now dst (set_status S (f.db 1) id delivered m)

  unfoldable pub retrieve_known :
      Faults S → Bytes → RetrieveOpts → ℕ → Option Bytes → Result Manifest × Manager S → Retrieved
  retrieve_known f id o now dst (err e, m) = (err e, dst, m)
  retrieve_known f id o now dst (ok man, m) =
      if is_after (some now) man.expires_at
      then (err past_expiry, dst, set_status S (f.db 0) id expired m)
      else retrieve_keyed f id man (resolve_key lib man o) now dst m

  -- Retrieve
  unfoldable pub retrieve :
      Bytes → RetrieveOpts → ℕ → Faults S → Option Bytes → Manager S → Retrieved
  retrieve id o now f dst m = retrieve_known f id o now dst (get_manifest S id m)
