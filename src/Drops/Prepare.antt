-- ===== src/Drops/Prepare.antt =====
-- internal/drops/manager.go: what Create prepares between its statuses ENCRYPTING and UPLOADING, the
-- sealed payload and the manifest.
pub mod Kept
pub mod Locked
use dero_ghost_drop.Base.{
  ℕ, ◌+◌, Bool, true, false, Option, none, some, List, [], ◌∷◌, Bytes, codes, length, if◌then◌else◌,
}
use dero_ghost_drop.Base.Int.{ℤ, pos}
use dero_ghost_drop.Crypto.Gd01.{Sealing, seal_file}
use dero_ghost_drop.Manifest.Types.{Manifest, Payment, StorageRef, new, set_file_info}
use dero_ghost_drop.Manifest.Validate.{Invalid, validate, is_empty}
use dero_ghost_drop.Manifest.Filenames.{encrypt_filenames}
use dero_ghost_drop.Manifest.Signing.{sign}
use dero_ghost_drop.Storage.Store.{Store}
use dero_ghost_drop.Drops.Types.{
  Error, Result, ok, err, ◌>>=◌, need, Library, CreateOpts, Random, Source, no_temp, no_random,
  sealing, unsigned_key, invalid,
}
use dero_ghost_drop.Drops.Locks.{lock_recipient, lock_password}
use dero_ghost_drop.Drops.Manager.{Faults}

-- The id, mode and expiry that Create goes on with: 72 hours by default.
pub record Settled : Type 0 where
  pub id : Bytes
  pub mode : Bytes
  pub expiry : ℕ

unfoldable pub expiry_of : Option ℕ → ℕ → ℕ
expiry_of none now = now + 259200000000000
expiry_of (some t) now = t

unfoldable pub settle : CreateOpts → Random → ℕ → Settled
settle o r now = record {
  id = if is_empty o.id then r.id else o.id;
  mode = if is_empty o.mode then codes "anonymous" else o.mode;
  expiry = expiry_of o.expiry now;
}

pub record Prepared : Type 0 where
  pub man : Manifest
  pub payload : Bytes

unfoldable pub unless : Bool → Error → Result (Unit {0})
unless b e = if b then err e else ok tt

module _ (lib : Library) where
  -- manifest.New and the assignments behind it
  unfoldable pub described : CreateOpts → Settled → Bytes → ℕ → Sealing → Manifest
  described o c backend now sealed = record (new c.id c.mode c.expiry now) {
    sender_identity = o.sender_identity;
    recipient_commitment = o.recipient_commitment;
    payload_hash = lib.hash sealed.written;
    payload_size = pos (length sealed.written);
    plaintext_hash = lib.hash sealed.hashed;
    one_time = o.one_time;
    storage = record { backend = backend; ref = c.id };
    payment = record { amount = o.amount; address = o.paid_to; txid_required = o.txid_required };
  }

  -- Under len(opts.SignPriv) > 0
  unfoldable pub signed : Bytes → Bytes → Manifest → Result Manifest
  signed [] by m = ok m
  signed (c ∷ priv) by m = need unsigned_key (sign lib.ed lib.marshal (c ∷ priv) by m)

  unfoldable pub checked : Manifest → Result Manifest
  checked m = elim (validate m) [ none ↦ ok m | some e ↦ err (invalid e) ]

  -- The locks, the signature and Validate.
  unfoldable pub finished : CreateOpts → Random → Bytes → Manifest → Result Manifest
  finished o r key m = do
    for_recipient ← lock_recipient lib r key o.recipient_pub m
    locked ← lock_password lib r key o.password for_recipient
    man ← signed o.sign_priv o.sign_by locked
    checked man

module _ (lib : Library) (S : Store) where
  unfoldable pub prepare :
      CreateOpts → Settled → ℕ → Random → Source → Bytes → Faults S → Result Prepared
  prepare o c now r src key f = do
    made ← unless f.temp no_temp
    header_nonce ← need no_random r.header_nonce
    sealed ← need sealing (seal_file lib.aead key header_nonce src.bytes src.fails)
    sized ← unless f.temp_stat no_temp
    name_nonce ← need no_random r.name_nonce
    named ← need sealing (
        encrypt_filenames lib.aead key ((src.name, name_nonce) ∷ [])
          (described lib o c S.backend now sealed))
    man ←
        finished lib o r key
          (set_file_info 0 (pos (length src.bytes)) (lib.hash sealed.hashed) named)
    ok (record { man = man; payload = sealed.written })
