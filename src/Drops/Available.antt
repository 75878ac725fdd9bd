-- ===== src/Drops/Available.antt =====
-- internal/drops/manager.go: what a Create without an error leaves, and what Retrieve makes of it.
use mathlib.Core.Path.{subst}
use dero_ghost_drop.Base.{
  ℕ, ◌≡◌, ◌∙◌, refl, sym, ap, Bool, true, Option, none, some, arith, Bytes, lookup,
  lookup-insert_self, insert, length, take_of_length-le,
}
use dero_ghost_drop.Base.Int.{pos}
use dero_ghost_drop.Storage.Types as Storage
use dero_ghost_drop.Storage.Ids.{validate_id}
use dero_ghost_drop.Storage.Store.{Store, IsLawful}
use dero_ghost_drop.Crypto.Gd01.Sealed.{sealed_opens}
use dero_ghost_drop.Crypto.Gd01.{open_file, opened}
use dero_ghost_drop.Manifest.Types.{Manifest}
use dero_ghost_drop.Database as Database
use dero_ghost_drop.Drops.Types.{
  Status, uploading, encrypting, preparing, Result, ok, err, Library, CreateOpts, Random, Source,
}
use dero_ghost_drop.Drops.Manager.{Manager, Faults, set_status, write, remember}
use dero_ghost_drop.Drops.Prepare.{Settled, settle, Prepared, prepare}
use dero_ghost_drop.Drops.Prepare.Kept.{prepared}
use dero_ghost_drop.Crypto.Nonce.{nonce_size}
use dero_ghost_drop.Drops.Create.{
  recorded, create_stored, create_uploaded, create_prepared, create_keyed, create_started, create,
  create_failed,
}

-- The manager knows the drop's manifest, and the provider holds a payload that opens to `plain`.
pub record Available (lib : Library) (S : Store) (m : Manager S) (id : Bytes) (man : Manifest)
    (key plain : Bytes) : Type 0 where
  pub valid : validate_id id ≡ true
  pub known : lookup id m.manifests ≡ some man
  pub expiry : ℕ
  pub expires : man.expires_at ≡ some expiry
  pub payload : Bytes
  pub held : S.view m.store id ≡ some (record { bytes = payload; expiry = some expiry })
  pub opens : open_file lib.aead key payload ≡ opened plain
  pub hashed : man.plaintext_hash ≡ lib.hash plain
  pub sound : S.IsSound m.store

module _ (lib : Library) (S : Store) where
  pub write-store :
      (st : Database.Db → Database.Result (Unit {0}) × Database.Db) (m : Manager S)
      → (write S st m).store ≡ m.store
  unfolding write
  write-store st m = ground arith

  pub write-manifests :
      (st : Database.Db → Database.Result (Unit {0}) × Database.Db) (m : Manager S)
      → (write S st m).manifests ≡ m.manifests
  unfolding write
  write-manifests st m = ground arith

  pub set_status-store :
      (fails : Bool) (id : Bytes) (st : Status) (m : Manager S)
      → (set_status S fails id st m).store ≡ m.store
  unfolding set_status
  set_status-store fails id st m = grind (arith, write-store)

  pub set_status-manifests :
      (fails : Bool) (id : Bytes) (st : Status) (m : Manager S)
      → (set_status S fails id st m).manifests ≡ m.manifests
  unfolding set_status
  set_status-manifests fails id st m = grind (arith, write-manifests)

  recorded-store :
      (o : CreateOpts) (c : Settled) (now : ℕ) (f : Faults S) (p : Prepared) (m : Manager S)
      → (recorded lib S o c now f p m).store ≡ m.store
  unfolding recorded remember
  recorded-store o c now f p m = grind (arith, write-store)

  recorded-manifests :
      (o : CreateOpts) (c : Settled) (now : ℕ) (f : Faults S) (p : Prepared) (m : Manager S)
      → (recorded lib S o c now f p m).manifests ≡ insert c.id p.man m.manifests
  unfolding recorded remember
  recorded-manifests o c now f p m = grind (arith, write-manifests)

  -- The call of Put in Create.
  abbrev upload : Settled → Faults S → Prepared → S.State → Storage.Result (Unit {0}) × S.State
  upload c f p s =
      S.put f.store c.id (record { bytes = p.payload; fails = f.temp_read })
        (pos (length p.payload)) (some c.expiry) s

  create_uploaded_ok :
      (o : CreateOpts) (c : Settled) (now : ℕ) (f : Faults S) (key : Bytes) (p : Prepared)
      (m : Manager S) {out : Manifest × Bytes}
      → (create_uploaded lib S o c now f key p m).0 ≡ ok out
      → (out ≡ (p.man, key))
        × ((upload c f p m.store).0 ≡ Storage.ok tt)
        × ((create_uploaded lib S o c now f key p m).1
            ≡ recorded lib S o c now f p (record m { store = (upload c f p m.store).1 }))
  unfolding create_uploaded create_stored create_failed
  create_uploaded_ok o c now f key p m {out} h = go (upload c f p m.store) refl
    where
      go :
          (x : Storage.Result (Unit {0}) × S.State)
          → upload c f p m.store ≡ x
          → (out ≡ (p.man, key))
            × ((upload c f p m.store).0 ≡ Storage.ok tt)
            × ((create_uploaded lib S o c now f key p m).1
                ≡ recorded lib S o c now f p (record m { store = (upload c f p m.store).1 }))
      go (Storage.err e, s) i = absurd (ground arith)
      go (Storage.ok tt, s) i = (ground arith, ground arith, ground arith)

  -- The state in which Create begins the upload.
  abbrev begun : CreateOpts → ℕ → Random → Faults S → Manager S → Manager S
  begun o now r f m =
      let id = (settle o r now).id in
      set_status S (f.db 2) id uploading
        (set_status S (f.db 1) id encrypting (set_status S (f.db 0) id preparing m))

  begun-store :
      (o : CreateOpts) (now : ℕ) (r : Random) (f : Faults S) (m : Manager S)
      → (begun o now r f m).store ≡ m.store
  begun-store o now r f m = grind (arith, set_status-store)

  create_prepared_ok :
      (o : CreateOpts) (now : ℕ) (r : Random) (src : Source) (f : Faults S) (m : Manager S)
      {out : Manifest × Bytes}
      → (create lib S o now r (some src) f m).0 ≡ ok out
      → (key : Bytes) × (p : Prepared) × (prepare lib S o (settle o r now) now r src key f ≡ ok p)
        × (validate_id (settle o r now).id ≡ true)
        × (create lib S o now r (some src) f m
            ≡ create_uploaded lib S o (settle o r now) now f key p (begun o now r f m))
  unfolding create create_started create_keyed create_prepared create_failed
  create_prepared_ok o now r src f m {out} h = go r.file_key refl
    where
      Goal : Type 0
      Goal =
          (key : Bytes) × (p : Prepared) × (prepare lib S o (settle o r now) now r src key f ≡ ok p)
          × (validate_id (settle o r now).id ≡ true)
          × (create lib S o now r (some src) f m
              ≡ create_uploaded lib S o (settle o r now) now f key p (begun o now r f m))

      keyed :
          (key : Bytes)
          → r.file_key ≡ some key
          → (x : Result Prepared) → prepare lib S o (settle o r now) now r src key f ≡ x
          → Goal
      keyed key i (err e) j = absurd (ground arith)
      keyed key i (ok p) j = (key, p, j, ground arith, ground arith)

      go : (k : Option Bytes) → r.file_key ≡ k → Goal
      go none i = absurd (ground arith)
      go (some key) i = keyed key i (prepare lib S o (settle o r now) now r src key f) refl

  module _ (lawful : IsLawful S) where
    -- After a Create without an error the drop is available under its id, with the manifest and the
    -- file key that Create has returned: the provider holds a payload that the key opens to the source.
    pub create-Available :
        (o : CreateOpts) (now : ℕ) (r : Random) (src : Source) (f : Faults S) (m : Manager S)
        (header : Bytes) {man : Manifest} {key : Bytes}
        → S.IsSound m.store
        → r.header_nonce ≡ some header
        → length header ≡ nonce_size
        → (create lib S o now r (some src) f m).0 ≡ ok (man, key)
        → Available lib S
            (create lib S o now r (some src) f m).1
            (settle o r now).id
            man
            key
            src.bytes
    create-Available o now r src f m header {man} {key} sound hh hl h =
        let (k, p, pe, valid, ce) = create_prepared_ok o now r src f m h in
        let c = settle o r now in
        let (oe, ue, re) =
          create_uploaded_ok o c now f k p (begun o now r f m) (ap (λ x. x.0) (sym ce) ∙ h) in
        let (hd, sealed, he, se, le, ve, ke) = prepared lib S o c now r src k f p pe in
        let hdl : length hd ≡ nonce_size = ground arith in
        let (open_it, hash_it) = sealed_opens lib.aead k hd src.bytes src.fails sealed hdl se in
        let keys : k ≡ key = ap (λ x. x.1) (sym oe) in
        let mans : p.man ≡ man = ap (λ x. x.0) (sym oe) in
        let begun_sound = subst S.IsSound (sym (begun-store o now r f m)) sound in
        let reader : Storage.Reader = record { bytes = p.payload; fails = f.temp_read } in
        let (le2, view) =
          lawful.put_stores f.store c.id reader (length p.payload) (some c.expiry)
            (begun o now r f m).store begun_sound ue in
        let stored : (create lib S o now r (some src) f m).1.store
            ≡ (upload c f p (begun o now r f m).store).1 =
          ap (λ x. x.1.store) ce
          ∙ ap (λ x. x.store) re
          ∙ recorded-store o c now f p
              (record (begun o now r f m) { store = (upload c f p (begun o now r f m).store).1 }) in
        record {
          valid = valid;
          known =
              ap (λ x. lookup c.id x.1.manifests) ce
              ∙ ap (λ x. lookup c.id x.manifests) re
              ∙ ap (lookup c.id) (
                  recorded-manifests o c now f p (record (begun o now r f m) {
                    store = (upload c f p (begun o now r f m).store).1;
                  }))
              ∙ lookup-insert_self c.id p.man (begun o now r f m).manifests
              ∙ ap some mans;
          expiry = c.expiry;
          expires = ap (λ x. x.expires_at) (sym mans) ∙ ap (λ x. x.0) ke;
          payload = p.payload;
          held =
              ap (λ s. S.view s c.id) stored
              ∙ view
              ∙ ap (λ b. some (record { bytes = b; expiry = some c.expiry }))
                  (take_of_length-le (length p.payload) p.payload (omega arith));
          opens =
              ap (λ x. open_file lib.aead x p.payload) (sym keys)
              ∙ ap (open_file lib.aead k) le
              ∙ open_it;
          hashed = ap (λ x. x.plaintext_hash) (sym mans) ∙ ap (λ x. x.1) ke ∙ ap lib.hash hash_it;
          sound =
              subst S.IsSound (sym stored)
                (lawful.put-Keeps f.store c.id reader (pos (length p.payload)) (some c.expiry)
                  (begun o now r f m).store begun_sound).0;
        }
