-- ===== src/Drops/Locks.antt =====
-- internal/drops/manager.go: the locks that Create puts on a file key, and resolveKey.
pub mod RoundTrip
use mathlib.Core.Path.{subst}
use dero_ghost_drop.Base.{
  ℕ, ◌+◌, ◌≡◌, ◌≢◌, ◌∙◌, refl, sym, ap, Bool, true, false, not, ◌||◌, Option, none, some, [], ◌∷◌,
  ◌++◌, arith, Bytes, codes, ltb, ◌==◌, length, take, drop, length-append, take-append_length,
  drop-append_length, if◌then◌else◌,
}
use dero_ghost_drop.Strings.{
  hex_encode, hex_decode, AllBytes, hex_decode-hex_encode, append-AllBytes,
}
use dero_ghost_drop.Crypto.Nonce.{nonce_size}
use dero_ghost_drop.Crypto.SingleShot.{key_size, seal_bytes, open_bytes, Outcome}
use dero_ghost_drop.Crypto.Wrap.{
  Exchange, wrap_file_key, unwrap_file_key, unwrap-wrap_file_key, wrap_file_key_shape,
}
use dero_ghost_drop.Manifest.Types.{Manifest, Access}
use dero_ghost_drop.Manifest.Validate.{is_empty, is_empty-hex_encode}
use dero_ghost_drop.Drops.Types.{
  Error, Result, ok, err, ◌>>=◌, need, Library, RetrieveOpts, Random, no_random, locking, no_lock,
  bad_lock, no_key,
}

unfoldable pub sealed_key : Outcome (Bytes × Bytes) → Result Bytes
sealed_key (Outcome.err e) = err locking
sealed_key (Outcome.ok (nonce, cipher)) = ok (nonce ++ cipher)

unfoldable pub opened_key : Outcome Bytes → Result Bytes
opened_key (Outcome.err e) = err bad_lock
opened_key (Outcome.ok plain) = if length plain == 32 then ok plain else err bad_lock

module _ (lib : Library) where
  -- Create under opts.RecipientPub != nil
  unfoldable pub lock_recipient : Random → Bytes → Option Bytes → Manifest → Result Manifest
  lock_recipient r key none m = ok m
  lock_recipient r key (some recipient_pub) m = do
    ephem_priv ← need no_random r.ephem_priv
    w ← need locking (wrap_file_key lib.exchange lib.aead key recipient_pub ephem_priv r.wrap_nonce)
    ok (record m {
      access = record m.access {
        wrapped_key = hex_encode w.0;
        ephem_pub = hex_encode w.1;
        kdf = codes "x25519";
      };
    })

  -- Create under opts.Password != ""
  unfoldable pub lock_password : Random → Bytes → Bytes → Manifest → Result Manifest
  lock_password r key [] m = ok m
  lock_password r key (c ∷ cs) m = do
    salt ← need no_random r.salt
    w ← sealed_key (seal_bytes lib.aead r.password_nonce key (lib.derive (c ∷ cs) salt))
    ok (record m {
      access = record m.access {
        wrapped_key = hex_encode w;
        passphrase_salt = hex_encode salt;
        kdf = codes "argon2id";
      };
    })

  unfoldable pub unlock_recipient : Bytes → Option Bytes → Option Bytes → Result Bytes
  unlock_recipient priv (some wrapped) (some ephem_pub) =
      if not (length ephem_pub == 32)
      then err bad_lock
      else need bad_lock (unwrap_file_key lib.exchange lib.aead wrapped ephem_pub priv)
  unlock_recipient priv _ _ = err bad_lock

  unfoldable pub unlock_password : Bytes → Option Bytes → Option Bytes → Result Bytes
  unlock_password password (some raw) (some salt) =
      if ltb (length raw) 56
      then err bad_lock
      else opened_key (open_bytes lib.aead (take 24 raw) (drop 24 raw) (lib.derive password salt))
  unlock_password password _ _ = err bad_lock

  -- resolveKey without a direct key
  unfoldable pub resolve_lock : Manifest → Option Bytes → Bytes → Result Bytes
  resolve_lock m (some priv) password =
      if is_empty m.access.wrapped_key || is_empty m.access.ephem_pub
      then err no_lock
      else unlock_recipient priv (hex_decode m.access.wrapped_key) (hex_decode m.access.ephem_pub)
  resolve_lock m none password =
      if is_empty password
      then err no_key
      else if is_empty m.access.wrapped_key || is_empty m.access.passphrase_salt
      then err no_lock
      else unlock_password password (hex_decode m.access.wrapped_key)
          (hex_decode m.access.passphrase_salt)

  -- resolveKey
  unfoldable pub resolve_key : Manifest → RetrieveOpts → Result Bytes
  resolve_key m o = elim o.key [
    | some key ↦ ok key
    | none ↦ resolve_lock m o.recipient_priv o.password
  ]
