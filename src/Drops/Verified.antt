-- ===== src/Drops/Verified.antt =====
-- internal/drops/manager.go: what a Retrieve without an error has checked, whatever goes wrong in it.
use mathlib.Core.Path.{subst}
use dero_ghost_drop.Base.{
  ℕ, ◌≡◌, ◌⊎◌, ◌∙◌, refl, sym, ap, true, false, Option, some, arith, Bytes, bytes_eq_iff,
}
use dero_ghost_drop.Base.Int.{pos}
use dero_ghost_drop.Storage.Types as Storage
use dero_ghost_drop.Storage.Types.{is_past, Blob}
use dero_ghost_drop.Storage.Store.{Store, IsLawful}
use dero_ghost_drop.Crypto.Gd01.{open_file, Opened, opened, refused}
use dero_ghost_drop.Manifest.Types.{Manifest}
use dero_ghost_drop.Manifest.Validate.{is_after, is_empty}
use dero_ghost_drop.Drops.Types.{delivered, retrieved, Result, ok, err, Library, RetrieveOpts}
use dero_ghost_drop.Drops.Locks.{resolve_key}
use dero_ghost_drop.Drops.Manager.{Manager, Faults, set_status, get_manifest}
use dero_ghost_drop.Drops.Retrieve.{
  open_into, retrieve_opened, retrieve_decrypted, retrieve_fetched, retrieve_delivered,
  retrieve_keyed, retrieve_known, retrieve,
}
use dero_ghost_drop.Drops.Available.{set_status-store}

module _ (lib : Library) (S : Store) where
  -- What Retrieve without an error has gone through.
  pub record Delivery (m : Manager S) (id : Bytes) (o : RetrieveOpts) (now : ℕ) (dst : Option Bytes)
      : Type 0 where
    pub man : Manifest
    pub key : Bytes
    pub blob : Blob
    pub plain : Bytes
    pub known : (get_manifest S id m).0 ≡ ok man
    pub in_time : is_after (some now) man.expires_at ≡ false
    pub resolved : resolve_key lib man o ≡ ok key
    pub held : S.view m.store id ≡ some blob
    pub fresh : is_past blob.expiry now ≡ false
    pub opens : open_file lib.aead key blob.bytes ≡ opened plain
    pub hashed : (is_empty man.plaintext_hash ≡ true) ⊎ (lib.hash plain ≡ man.plaintext_hash)
    pub written : dst ≡ some plain

  get_manifest-store : (id : Bytes) (m : Manager S) → (get_manifest S id m).1.store ≡ m.store
  unfolding get_manifest
  get_manifest-store id m = ground arith

  opened_ok :
      (f : Faults S) (id : Bytes) (man : Manifest) (now : ℕ) (plain : Bytes) (dst : Option Bytes)
      (m : Manager S)
      → (retrieve_opened lib S f id man now plain dst m).0 ≡ ok tt
      → ((is_empty man.plaintext_hash ≡ true) ⊎ (lib.hash plain ≡ man.plaintext_hash))
        × ((retrieve_opened lib S f id man now plain dst m).1 ≡ dst)
  unfolding retrieve_opened
  opened_ok f id man now plain dst m h =
      (ground (arith, bytes_eq_iff (lib.hash plain) man.plaintext_hash), ground arith)

  decrypted_ok :
      (f : Faults S) (id : Bytes) (man : Manifest) (now : ℕ) (dst : Option Bytes) (r : Opened)
      (m : Manager S)
      → (retrieve_decrypted lib S f id man now (open_into lib S f dst r) m).0 ≡ ok tt
      → (plain : Bytes) × (r ≡ opened plain)
        × ((is_empty man.plaintext_hash ≡ true) ⊎ (lib.hash plain ≡ man.plaintext_hash))
        × ((retrieve_decrypted lib S f id man now (open_into lib S f dst r) m).1 ≡ some plain)
  unfolding retrieve_decrypted open_into
  decrypted_ok f id man now dst (refused e) m h = absurd (ground arith)
  decrypted_ok f id man now dst (opened plain) m h =
      let t = set_status S (f.db 3) id retrieved m in
      (
        plain,
        refl,
        ground (arith, opened_ok f id man now plain (some plain) t),
        ground (arith, opened_ok f id man now plain (some plain) t),
      )

  module _ (lawful : IsLawful S) where
    fetched_ok :
        (f : Faults S) (id : Bytes) (man : Manifest) (key : Bytes) (now : ℕ) (dst : Option Bytes)
        (m : Manager S)
        → S.IsSound m.store
        → (retrieve_delivered lib S f id man key now dst m).0 ≡ ok tt
        → (b : Blob) × (plain : Bytes) × (S.view m.store id ≡ some b)
          × (is_past b.expiry now ≡ false)
          × (open_file lib.aead key b.bytes ≡ opened plain)
          × ((is_empty man.plaintext_hash ≡ true) ⊎ (lib.hash plain ≡ man.plaintext_hash))
          × ((retrieve_delivered lib S f id man key now dst m).1 ≡ some plain)
    unfolding retrieve_delivered retrieve_fetched
    fetched_ok f id man key now dst m sound h = go (S.get f.store id (pos 0) now m.store) refl
      where
        go :
            (x : Storage.Result Bytes × S.State)
            → S.get f.store id (pos 0) now m.store ≡ x
            → (b : Blob) × (plain : Bytes) × (S.view m.store id ≡ some b)
              × (is_past b.expiry now ≡ false)
              × (open_file lib.aead key b.bytes ≡ opened plain)
              × ((is_empty man.plaintext_hash ≡ true) ⊎ (lib.hash plain ≡ man.plaintext_hash))
              × ((retrieve_delivered lib S f id man key now dst m).1 ≡ some plain)
        go (Storage.err e, s) i = absurd (ground arith)
        go (Storage.ok enc, s) i =
            let (b, v, x, e, st) =
              lawful.get_delivers f.store id 0 now m.store sound (ap (λ z. z.0) i) in
            let t = record m { store = s } in
            let (plain, o, c, w) =
              decrypted_ok f id man now dst (open_file lib.aead key enc) t (ground arith) in
            (b, plain, v, x, ap (open_file lib.aead key) (sym e) ∙ o, c, ground (arith, w))

    -- Whatever goes wrong, a Retrieve that reports no error has found the manifest and the key, before
    -- the manifest's expiry; the provider held a payload that was not past its own; the key opened
    -- it; the plaintext has the manifest's hash, unless that is empty; and dstPath has the plaintext.
    pub retrieve_ok :
        (id : Bytes) (o : RetrieveOpts) (now : ℕ) (f : Faults S) (dst : Option Bytes)
        (m : Manager S)
        → S.IsSound m.store
        → (retrieve lib S id o now f dst m).0 ≡ ok tt
        → Delivery m id o now (retrieve lib S id o now f dst m).1
    unfolding retrieve retrieve_known retrieve_keyed
    retrieve_ok id o now f dst m sound h = found (get_manifest S id m).0 refl
      where
        t : Manager S
        t = set_status S (f.db 1) id delivered (get_manifest S id m).1

        stored : t.store ≡ m.store
        stored =
            set_status-store lib S (f.db 1) id delivered (get_manifest S id m).1
            ∙ get_manifest-store id m

        keyed :
            (man : Manifest)
            → (get_manifest S id m).0 ≡ ok man
            → (k : Result Bytes) → resolve_key lib man o ≡ k
            → Delivery m id o now (retrieve lib S id o now f dst m).1
        keyed man i (err e) j = absurd (ground arith)
        keyed man i (ok key) j =
            let whole : retrieve lib S id o now f dst m
                ≡ retrieve_delivered lib S f id man key now dst t =
              ground arith in
            let (b, plain, v, x, op, c, w) =
              fetched_ok f id man key now dst t (subst S.IsSound (sym stored) sound)
                (ap (λ z. z.0) (sym whole) ∙ h) in
            record {
              man = man;
              key = key;
              blob = b;
              plain = plain;
              known = i;
              in_time = ground arith;
              resolved = j;
              held = ap (λ y. S.view y id) (sym stored) ∙ v;
              fresh = x;
              opens = op;
              hashed = c;
              written = ap (λ z. z.1) whole ∙ w;
            }

        found :
            (r : Result Manifest)
            → (get_manifest S id m).0 ≡ r
            → Delivery m id o now (retrieve lib S id o now f dst m).1
        found (err e) i = absurd (ground arith)
        found (ok man) i = keyed man i (resolve_key lib man o) refl
