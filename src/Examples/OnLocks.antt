-- ===== src/Examples/OnLocks.antt =====
-- A key of zeros behind the locks of a manifest.
use dero_ghost_drop.Base.{◌≡◌, refl, none, some, [], ◌++◌, arith, codes, bytes_eq}
use dero_ghost_drop.Crypto.SingleShot.{seal_bytes}
use dero_ghost_drop.Crypto.Wrap.{wrap_file_key}
use dero_ghost_drop.Manifest.Types.{Manifest, new, manifest_chunk_size}
use dero_ghost_drop.Drops.Types.{ok, Random, CreateOpts}
use dero_ghost_drop.Drops.Prepare.{finished, signed, checked}
use dero_ghost_drop.Drops.Prepare.Locked.{resolve_key-finished}
use dero_ghost_drop.Examples.OnDrops.{opts, man}
use dero_ghost_drop.Drops.Locks.{lock_recipient, lock_password, sealed_key, resolve_key}
use dero_ghost_drop.Drops.Locks.RoundTrip.{resolve_key-lock_password, recipient_lock_lost}
use dero_ghost_drop.Examples.Toys.{
  lib, zeros32, zeros32-AllBytes, nonce, nonce-AllBytes, tag, tag-AllBytes,
}
use dero_ghost_drop.Strings.{hex_encode, hex_digit, hex_decode, hex_pair, hex_value, after_prefix}
use dero_ghost_drop.Storage.Ids.{validate_id}
use dero_ghost_drop.Manifest.Validate.{
  validate, known_mode, is_empty, is_some, is_after, is_negative, file_ok, files_ok,
}

abbrev random : Random
random = record {
  id = [];
  file_key = some zeros32;
  header_nonce = some nonce;
  name_nonce = some nonce;
  ephem_priv = some zeros32;
  wrap_nonce = some nonce;
  salt = some tag;
  password_nonce = some nonce;
}

abbrev blank : Manifest
blank = new (codes "GD-0123456789ab") (codes "direct") 100 5

abbrev for_recipient : Manifest
for_recipient = record blank {
  access = record {
    wrapped_key = hex_encode (nonce ++ (zeros32 ++ tag));
    ephem_pub = hex_encode zeros32;
    passphrase_salt = [];
    kdf = codes "x25519";
  };
}

abbrev with_password : Manifest → Manifest
with_password m = record m {
  access = record m.access {
    wrapped_key = hex_encode (nonce ++ (zeros32 ++ tag));
    passphrase_salt = hex_encode tag;
    kdf = codes "argon2id";
  };
}

recipient_locked : lock_recipient lib random zeros32 (some zeros32) blank ≡ ok for_recipient
unfolding lock_recipient wrap_file_key new
recipient_locked = refl

abbrev to_recipient : CreateOpts
to_recipient = record opts { recipient_pub = some zeros32 }

abbrev finished_man : Manifest
finished_man = record man { access = for_recipient.access }

man_finished : finished lib to_recipient random zeros32 man ≡ ok finished_man
unfolding finished signed checked lock_recipient lock_password wrap_file_key validate known_mode
    is_empty is_some is_after is_negative file_ok files_ok after_prefix hex_decode hex_pair
    hex_value hex_encode hex_digit validate_id bytes_eq manifest_chunk_size
man_finished = refl

resolve_key-finished_example :
    resolve_key lib finished_man
      (record { key = none; recipient_priv = some zeros32; password = [] })
    ≡ ok zeros32
resolve_key-finished_example =
    resolve_key-finished lib to_recipient random zeros32 zeros32 zeros32 nonce [] man refl
      zeros32-AllBytes refl refl nonce-AllBytes refl refl refl man_finished

password_locked :
    (m : Manifest) → lock_password lib random zeros32 (codes "pw") m ≡ ok (with_password m)
unfolding lock_password sealed_key seal_bytes
password_locked m = refl

resolve_key-lock_password_example :
    resolve_key lib
      (with_password blank)
      (record { key = none; recipient_priv = none; password = codes "pw" })
    ≡ ok zeros32
resolve_key-lock_password_example =
    resolve_key-lock_password lib random zeros32 (codes "pw") nonce tag blank refl zeros32-AllBytes
      refl refl nonce-AllBytes refl (omega arith) tag-AllBytes (omega arith) (password_locked blank)

recipient_lock_lost_example : with_password for_recipient ≡ record (with_password blank) {
  access = record (with_password blank).access { ephem_pub = for_recipient.access.ephem_pub };
}
recipient_lock_lost_example =
    recipient_lock_lost lib random zeros32 zeros32 (codes "pw") blank (omega arith) recipient_locked
      (password_locked for_recipient) (password_locked blank)
