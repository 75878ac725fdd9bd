-- ===== src/Drops/Prepare/Kept.antt =====
-- What the preparation of internal/drops/manager.go leaves in the manifest and the payload.
use dero_ghost_drop.Base.{
  ℕ, ◌≡◌, ◌∙◌, refl, ap, Bool, Option, none, some, List, [], ◌∷◌, arith, Bytes, length,
}
use dero_ghost_drop.Base.Int.{pos}
use dero_ghost_drop.Crypto.Gd01.{Sealing, seal_file}
use dero_ghost_drop.Manifest.Types.{Manifest, set_file_info, new}
use dero_ghost_drop.Manifest.Validate.{validate}
use dero_ghost_drop.Manifest.Filenames.{encrypt_filenames, set_files}
use dero_ghost_drop.Manifest.Signing.{sign}
use dero_ghost_drop.Storage.Store.{Store}
use dero_ghost_drop.Drops.Types.{
  Result, ok, err, ◌>>=◌, bind_ok, Library, CreateOpts, Random, Source,
}
use dero_ghost_drop.Drops.Locks.{lock_recipient, lock_password}
use dero_ghost_drop.Drops.Manager.{Faults}
use dero_ghost_drop.Drops.Prepare.{
  Settled, Prepared, described, signed, checked, finished, prepare, unless,
}

-- The fields that no step of the preparation changes.
abbrev pub kept : Manifest → Option ℕ × Bytes × Bytes × Bool
kept m = (m.expires_at, m.plaintext_hash, m.drop_id, m.one_time)

module _ (lib : Library) where
  lock_recipient-kept :
      (r : Random) (key : Bytes) (p : Option Bytes) (m : Manifest) {n : Manifest}
      → lock_recipient lib r key p m ≡ ok n
      → kept n ≡ kept m
  unfolding lock_recipient
  lock_recipient-kept r key none m h = ground arith
  lock_recipient-kept r key (some p) m h = ground arith

  lock_password-kept :
      (r : Random) (key : Bytes) (p : Bytes) (m : Manifest) {n : Manifest}
      → lock_password lib r key p m ≡ ok n
      → kept n ≡ kept m
  unfolding lock_password
  lock_password-kept r key [] m h = ground arith
  lock_password-kept r key (c ∷ p) m h = ground arith

  signed-kept :
      (priv by : Bytes) (m : Manifest) {n : Manifest}
      → signed lib priv by m ≡ ok n
      → kept n ≡ kept m
  unfolding signed sign
  signed-kept [] by m h = ground arith
  signed-kept (c ∷ p) by m h = ground arith

  checked-kept :
      (m : Manifest) {n : Manifest} → checked lib m ≡ ok n → (validate n ≡ none) × (n ≡ m)
  unfolding checked
  checked-kept m h = (ground arith, ground arith)

  filenames-kept :
      (key : Bytes) (names : List (Bytes × Bytes)) (m : Manifest) {n : Manifest}
      → encrypt_filenames lib.aead key names m ≡ some n
      → kept n ≡ kept m
  unfolding encrypt_filenames set_files
  filenames-kept key names m h = ground arith

  finished-kept :
      (o : CreateOpts) (r : Random) (key : Bytes) (m : Manifest) {n : Manifest}
      → finished lib o r key m ≡ ok n
      → (validate n ≡ none) × (kept n ≡ kept m)
  unfolding finished
  finished-kept o r key m {n} h =
      let sign_it = signed lib o.sign_priv o.sign_by in
      let lock_it = lock_password lib r key o.password in
      let (a, ea, ha) =
        bind_ok (lock_recipient lib r key o.recipient_pub m)
          (λ a. lock_it a >>= (λ b. sign_it b >>= checked lib)) h in
      let (b, eb, hb) = bind_ok (lock_it a) (λ b. sign_it b >>= checked lib) ha in
      let (c, ec, hc) = bind_ok (sign_it b) (checked lib) hb in
      let (v, e) = checked-kept c hc in
      (
        v,
        ap kept e
            ∙ signed-kept o.sign_priv o.sign_by b ec
            ∙ lock_password-kept r key o.password a eb
            ∙ lock_recipient-kept r key o.recipient_pub m ea,
      )

-- A preparation that succeeds has sealed the whole source under the file key, and its manifest
-- validates and has the id, the expiry, the flag and the hash of the plaintext.
module _ (lib : Library) (S : Store) (o : CreateOpts) (c : Settled) (now : ℕ) (r : Random)
    (src : Source) (key : Bytes) (f : Faults S) where
  pub prepared :
      (p : Prepared)
      → prepare lib S o c now r src key f ≡ ok p
      → (header : Bytes) × (sealed : Sealing) × (r.header_nonce ≡ some header)
        × (seal_file lib.aead key header src.bytes src.fails ≡ some sealed)
        × (p.payload ≡ sealed.written)
        × (validate p.man ≡ none)
        × (kept p.man ≡ (some c.expiry, lib.hash sealed.hashed, c.id, o.one_time))
  unfolding prepare unless described new set_file_info
  prepared p h = go1 r.header_nonce refl
    where
      Goal : Type 0
      Goal =
          (header : Bytes) × (sealed : Sealing) × (r.header_nonce ≡ some header)
          × (seal_file lib.aead key header src.bytes src.fails ≡ some sealed)
          × (p.payload ≡ sealed.written)
          × (validate p.man ≡ none)
          × (kept p.man ≡ (some c.expiry, lib.hash sealed.hashed, c.id, o.one_time))

      info : Manifest → Sealing → Manifest
      info named sealed = set_file_info 0 (pos (length src.bytes)) (lib.hash sealed.hashed) named

      names : Bytes → Sealing → Option Manifest
      names nonce sealed =
          encrypt_filenames lib.aead key ((src.name, nonce) ∷ [])
            (described lib o c S.backend now sealed)

      go5 :
          (header : Bytes)
          → r.header_nonce ≡ some header
          → (s : Sealing) → seal_file lib.aead key header src.bytes src.fails ≡ some s
          → (n : Bytes) → r.name_nonce ≡ some n
          → (m : Manifest) → names n s ≡ some m
          → (res : Result Manifest) → finished lib o r key (info m s) ≡ res
          → Goal
      go5 header i s j n k m l (err e) q = absurd (ground arith)
      go5 header i s j n k m l (ok man) q =
          let (v, e) = finished-kept lib o r key (info m s) q in
          let e' =
            filenames-kept lib key ((src.name, n) ∷ []) (described lib o c S.backend now s) l in
          let pe : p ≡ record { man = man; payload = s.written } = ground arith in
          (
            header,
            s,
            i,
            j,
            ap Prepared.payload pe,
            ap (λ x. validate x.man) pe ∙ v,
            ap (λ x. kept x.man) pe ∙ e ∙ e',
          )

      go4 :
          (header : Bytes)
          → r.header_nonce ≡ some header
          → (s : Sealing) → seal_file lib.aead key header src.bytes src.fails ≡ some s
          → (n : Bytes) → r.name_nonce ≡ some n
          → (m : Option Manifest) → names n s ≡ m
          → Goal
      go4 header i s j n k none l = absurd (ground arith)
      go4 header i s j n k (some m) l =
          go5 header i s j n k m l (finished lib o r key (info m s)) refl

      go3 :
          (header : Bytes)
          → r.header_nonce ≡ some header
          → (s : Sealing) → seal_file lib.aead key header src.bytes src.fails ≡ some s
          → (n : Option Bytes) → r.name_nonce ≡ n
          → Goal
      go3 header i s j none k = absurd (ground arith)
      go3 header i s j (some n) k = go4 header i s j n k (names n s) refl

      go2 :
          (header : Bytes)
          → r.header_nonce ≡ some header
          → (s : Option Sealing) → seal_file lib.aead key header src.bytes src.fails ≡ s
          → Goal
      go2 header i none j = absurd (ground arith)
      go2 header i (some s) j = go3 header i s j r.name_nonce refl

      go1 : (x : Option Bytes) → r.header_nonce ≡ x → Goal
      go1 none i = absurd (ground arith)
      go1 (some header) i = go2 header i (seal_file lib.aead key header src.bytes src.fails) refl
