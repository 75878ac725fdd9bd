-- ===== src/Drops/Deliver.antt =====
-- internal/drops/manager.go: what Retrieve delivers.
use mathlib.Core.Path.{subst}
use dero_ghost_drop.Base.{
  ℕ, ◌≡◌, ◌∙◌, refl, sym, ap, if◌then◌else◌, Bool, true, false, Option, none, some, arith, Bytes,
  bytes_eq_iff, lookup, lookup-insert_self, length,
}
use dero_ghost_drop.Base.Int.{pos}
use dero_ghost_drop.Storage.Types as Storage
use dero_ghost_drop.Storage.Types.{is_past, Blob}
use dero_ghost_drop.Storage.Ids.{validate_id}
use dero_ghost_drop.Storage.Store.{Store, IsLawful}
use dero_ghost_drop.Manifest.Types.{Manifest}
use dero_ghost_drop.Manifest.Validate.{is_after}
use dero_ghost_drop.Database as Database
use dero_ghost_drop.Drops.Types.{
  delivered, retrieved, verified, ok, Library, CreateOpts, RetrieveOpts, Random, Source,
}
use dero_ghost_drop.Drops.Locks.{resolve_key}
use dero_ghost_drop.Drops.Manager.{Manager, Faults, set_status, write, get_manifest}
use dero_ghost_drop.Crypto.Nonce.{nonce_size}
use dero_ghost_drop.Drops.Prepare.{settle}
use dero_ghost_drop.Drops.Create.{create}
use dero_ghost_drop.Drops.Retrieve.{
  open_into, delete_once, marked_verified, retrieve_verified, retrieve_opened, retrieve_decrypted,
  retrieve_fetched, retrieve_delivered, retrieve_keyed, retrieve_known, retrieve,
}
use dero_ghost_drop.Drops.Available.{Available, create-Available, set_status-store, write-store}

abbrev pub no_faults : (S : Store) → Faults S
no_faults S = record {
  cancelled = false;
  temp = false;
  temp_stat = false;
  temp_open = false;
  temp_read = false;
  dst_open = false;
  dst_write = false;
  dst_read = false;
  save = false;
  save_write = false;
  db = λ n. false;
  store = S.healthy;
  store_delete = S.healthy;
}

module _ (lib : Library) (S : Store) where
  write-statuses :
      (st : Database.Db → Database.Result (Unit {0}) × Database.Db) (m : Manager S)
      → (write S st m).statuses ≡ m.statuses
  unfolding write
  write-statuses st m = ground arith

  verified-statuses :
      (f : Faults S) (id : Bytes) (man : Manifest) (now : ℕ) (m : Manager S)
      → lookup id (retrieve_verified lib S f id man now m).statuses ≡ some verified
  unfolding retrieve_verified marked_verified delete_once set_status
  verified-statuses f id man now m =
      grind (arith, write-statuses, lookup-insert_self id verified m.statuses)

  marked-store :
      (f : Faults S) (id : Bytes) (now : ℕ) (m : Manager S)
      → (marked_verified lib S f id now m).store ≡ m.store
  unfolding marked_verified
  marked-store f id now m = grind (arith, write-store lib S, set_status-store lib S)

  opened_passes :
      (f : Faults S) (id : Bytes) (man : Manifest) (now : ℕ) (plain : Bytes) (dst : Option Bytes)
      (m : Manager S)
      → f.dst_read ≡ false
      → man.plaintext_hash ≡ lib.hash plain
      → retrieve_opened lib S f id man now plain dst m
        ≡ (ok tt, dst, retrieve_verified lib S f id man now m)
  unfolding retrieve_opened
  opened_passes f id man now plain dst m d h =
      ground (arith, bytes_eq_iff (lib.hash plain) man.plaintext_hash)

  module _ (lawful : IsLawful S) where
    retrieve-Available :
        (id key plain : Bytes) (man : Manifest) (o : RetrieveOpts) (now : ℕ) (dst : Option Bytes)
        (m : Manager S)
        → Available lib S m id man key plain
        → resolve_key lib man o ≡ ok key
        → is_after (some now) man.expires_at ≡ false
        → (t : Manager S) × (retrieve lib S id o now (no_faults S) dst m
            ≡ (ok tt, some plain, retrieve_verified lib S (no_faults S) id man now t))
          × (t.store ≡ m.store)
    unfolding retrieve retrieve_known retrieve_keyed retrieve_delivered retrieve_fetched
        retrieve_decrypted open_into get_manifest is_after is_past
    retrieve-Available id key plain man o now dst m a k x =
        let d = set_status S false id delivered m in
        let stored : d.store ≡ m.store = set_status-store lib S false id delivered m in
        let t = set_status S false id retrieved (record d { store = m.store }) in
        let got : S.get S.healthy id (pos 0) now d.store ≡ (Storage.ok a.payload, m.store) =
          ap (λ s. S.get S.healthy id (pos 0) now s) stored
          ∙ lawful.get_succeeds id 0 now m.store a.sound a.valid a.held (ground (arith, a.expires))
              (omega arith) in
        (
          t,
          ground (
            arith,
            got,
            a.known,
            a.opens,
            opened_passes (no_faults S) id man now plain (some plain) t refl a.hashed,
          ),
          set_status-store lib S false id retrieved (record d { store = m.store }),
        )

    -- A one-time payload is deleted by a Retrieve that succeeds, any other is kept.
    delete_once-view :
        (id : Bytes) (once : Bool) (t : Manager S) (s : S.State)
        → S.IsSound t.store
        → validate_id id ≡ true
        → t.store ≡ s
        → S.view (delete_once lib S (no_faults S) id once t).store id
          ≡ (if once then none else S.view s id)
    unfolding delete_once
    delete_once-view id true t s h v e =
        lawful.delete_removes S.healthy id t.store h (lawful.delete_succeeds id t.store v)
    delete_once-view id false t s h v e = ap (λ x. S.view x id) e

    -- Round trip. With a lawful provider in order, let a Create under a nonce of 24 bytes return a
    -- manifest and a key. Then a Retrieve that finds this key, by any of the ways of resolveKey, before
    -- the manifest's expiry and without a fault, succeeds: dstPath has the bytes of the source, and the
    -- drop is VERIFIED. The provider has then lost the payload of a one-time drop,
    -- and keeps that of any other.
    pub retrieve-create :
        (o : CreateOpts) (now : ℕ) (r : Random) (src : Source) (f : Faults S) (m : Manager S)
        (header : Bytes) {man : Manifest} {key : Bytes}
        → S.IsSound m.store
        → r.header_nonce ≡ some header
        → length header ≡ nonce_size
        → (create lib S o now r (some src) f m).0 ≡ ok (man, key)
        → (ro : RetrieveOpts) (later : ℕ) (dst : Option Bytes) → resolve_key lib man ro ≡ ok key
        → is_after (some later) man.expires_at ≡ false
        → ((retrieve lib S
              (settle o r now).id
              ro
              later
              (no_faults S)
              dst
              (create lib S o now r (some src) f m).1).0
            ≡ ok tt)
          × ((retrieve lib S
                (settle o r now).id
                ro
                later
                (no_faults S)
                dst
                (create lib S o now r (some src) f m).1).1
              ≡ some src.bytes)
          × (lookup
                (settle o r now).id
                (retrieve lib S
                  (settle o r now).id
                  ro
                  later
                  (no_faults S)
                  dst
                  (create lib S o now r (some src) f m).1).2.statuses
              ≡ some verified)
          × (S.view
                (retrieve lib S
                  (settle o r now).id
                  ro
                  later
                  (no_faults S)
                  dst
                  (create lib S o now r (some src) f m).1).2.store
                (settle o r now).id
              ≡ (if man.one_time
                  then none
                  else S.view (create lib S o now r (some src) f m).1.store (settle o r now).id))
    unfolding retrieve_verified
    retrieve-create o now r src f m header {man} {key} sound hh hl h ro later dst k x =
        let id = (settle o r now).id in
        let a = create-Available lib S lawful o now r src f m header sound hh hl h in
        let (t, e, st) =
          retrieve-Available id key src.bytes man ro later dst
            (create lib S o now r (some src) f m).1 a k x in
        (
          ap (λ z. z.0) e,
          ap (λ z. z.1) e,
          ap (λ z. lookup id z.2.statuses) e ∙ verified-statuses (no_faults S) id man later t,
          ap (λ z. S.view z.2.store id) e
              ∙ delete_once-view id man.one_time (marked_verified lib S (no_faults S) id later t)
                  (create lib S o now r (some src) f m).1.store
                  (subst S.IsSound (sym (marked-store (no_faults S) id later t ∙ st)) a.sound)
                  a.valid (marked-store (no_faults S) id later t ∙ st),
        )
