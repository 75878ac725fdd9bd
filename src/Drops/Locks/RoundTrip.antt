-- ===== src/Drops/Locks/RoundTrip.antt =====
-- The locks of internal/drops/manager.go undone by resolveKey.
use mathlib.Core.Path.{subst}
use dero_ghost_drop.Base.{
  codes, ◌≡◌, ◌≢◌, ◌∙◌, refl, sym, ap, false, Option, none, some, [], ◌∷◌, ◌++◌, arith, Bytes,
  length, length-append, take-append_length, drop-append_length,
}
use dero_ghost_drop.Strings.{hex_encode, AllBytes, hex_decode-hex_encode, append-AllBytes}
use dero_ghost_drop.Crypto.Nonce.{nonce_size}
use dero_ghost_drop.Crypto.SingleShot.{key_size, seal_bytes, open_bytes}
use dero_ghost_drop.Crypto.Wrap.{
  wrap_file_key, unwrap_file_key, unwrap-wrap_file_key, wrap_file_key_shape,
}
use dero_ghost_drop.Manifest.Types.{Manifest}
use dero_ghost_drop.Manifest.Validate.{is_empty, is_empty-hex_encode}
use dero_ghost_drop.Drops.Types.{Result, ok, err, Library, Random}
use dero_ghost_drop.Drops.Locks.{
  sealed_key, opened_key, lock_recipient, lock_password, unlock_recipient, unlock_password,
  resolve_lock, resolve_key,
}

module _ (lib : Library) where
  unlocked_recipient :
      (m : Manifest) (wrapped ephem_pub priv password key : Bytes)
      → m.access.wrapped_key ≡ hex_encode wrapped
      → m.access.ephem_pub ≡ hex_encode ephem_pub
      → AllBytes wrapped
      → AllBytes ephem_pub
      → length wrapped ≢ 0
      → length ephem_pub ≡ 32
      → unwrap_file_key lib.exchange lib.aead wrapped ephem_pub priv ≡ some key
      → resolve_lock lib m (some priv) password ≡ ok key
  unfolding resolve_lock unlock_recipient
  unlocked_recipient m wrapped ephem_pub priv password key e f aw ae lw le u = ground (
    arith,
    hex_decode-hex_encode wrapped aw,
    hex_decode-hex_encode ephem_pub ae,
    is_empty-hex_encode wrapped lw,
    is_empty-hex_encode ephem_pub (omega arith),
  )

  wrapped_recipient :
      (m : Manifest) (key priv recipient_pub ephem_priv nonce password : Bytes) (w : Bytes × Bytes)
      → length key ≡ key_size
      → AllBytes key
      → length nonce ≡ nonce_size
      → AllBytes nonce
      → lib.exchange.public priv ≡ some recipient_pub
      → wrap_file_key lib.exchange lib.aead key recipient_pub ephem_priv (some nonce) ≡ some w
      → m.access.wrapped_key ≡ hex_encode w.0
      → m.access.ephem_pub ≡ hex_encode w.1
      → resolve_lock lib m (some priv) password ≡ ok key
  wrapped_recipient m key priv recipient_pub ephem_priv nonce password (wrapped, ephem_pub) hk ak hn
        an hp w e f =
      let (k, shape, pe) =
        wrap_file_key_shape lib.exchange lib.aead key recipient_pub ephem_priv nonce w in
      unlocked_recipient m wrapped ephem_pub priv password key e f
        (subst AllBytes (sym shape)
          (append-AllBytes nonce (lib.aead.seal k nonce key) an (lib.seal-AllBytes k nonce key ak)))
        (lib.public-AllBytes ephem_priv pe)
        (omega (arith, length-append nonce (lib.aead.seal k nonce key), ap length shape))
        (lib.length-public ephem_priv pe)
        (unwrap-wrap_file_key lib.exchange lib.aead key priv recipient_pub ephem_priv nonce hk hn hp
          w)

  -- Behind the recipient lock, the first of Create, resolveKey finds a file key of 32 bytes with the
  -- recipient's private key, the nonce of the lock having 24 bytes.
  pub resolve_key-lock_recipient :
      (r : Random) (key priv recipient_pub nonce password : Bytes) (m : Manifest)
      {locked : Manifest}
      → length key ≡ key_size
      → AllBytes key
      → r.wrap_nonce ≡ some nonce
      → length nonce ≡ nonce_size
      → AllBytes nonce
      → lib.exchange.public priv ≡ some recipient_pub
      → lock_recipient lib r key (some recipient_pub) m ≡ ok locked
      → resolve_key lib locked
          (record { key = none; recipient_priv = some priv; password = password })
        ≡ ok key
  unfolding lock_recipient resolve_key
  resolve_key-lock_recipient r key priv recipient_pub nonce password m {locked} hk ak rn hn an hp
        l =
      go r.ephem_priv refl
    where
      lock : Bytes → Option (Bytes × Bytes)
      lock ephem_priv =
          wrap_file_key lib.exchange lib.aead key recipient_pub ephem_priv (some nonce)

      done :
          (ephem_priv : Bytes)
          → r.ephem_priv ≡ some ephem_priv
          → (w : Option (Bytes × Bytes)) → lock ephem_priv ≡ w
          → resolve_lock lib locked (some priv) password ≡ ok key
      done ephem_priv i none j = absurd (ground arith)
      done ephem_priv i (some w) j =
          wrapped_recipient locked key priv recipient_pub ephem_priv nonce password w hk ak hn an hp
            j (ground arith) (ground arith)

      go :
          (e : Option Bytes)
          → r.ephem_priv ≡ e
          → resolve_lock lib locked (some priv) password ≡ ok key
      go none i = absurd (ground arith)
      go (some ephem_priv) i = done ephem_priv i (lock ephem_priv) refl

  found_password :
      (m : Manifest) (raw salt password : Bytes)
      → m.access.wrapped_key ≡ hex_encode raw
      → m.access.passphrase_salt ≡ hex_encode salt
      → AllBytes raw
      → AllBytes salt
      → length raw ≢ 0
      → length salt ≢ 0
      → is_empty password ≡ false
      → resolve_lock lib m none password ≡ unlock_password lib password (some raw) (some salt)
  unfolding resolve_lock
  found_password m raw salt password e f ar as' lr ls h = ground (
    arith,
    hex_decode-hex_encode raw ar,
    hex_decode-hex_encode salt as',
    is_empty-hex_encode raw lr,
    is_empty-hex_encode salt ls,
  )

  unlocked_password :
      (key password nonce salt : Bytes)
      → length key ≡ key_size
      → length nonce ≡ nonce_size
      → unlock_password lib password
          (some (nonce ++ lib.aead.seal (lib.derive password salt) nonce key))
          (some salt)
        ≡ ok key
  unfolding unlock_password opened_key open_bytes
  unlocked_password key password nonce salt hk hn =
      let dk = lib.derive password salt in
      let sealed = lib.aead.seal dk nonce key in
      ground (
        arith,
        lib.length-derive password salt,
        length-append nonce sealed,
        lib.aead.length-seal dk nonce key,
        take-append_length 24 nonce sealed (omega arith),
        drop-append_length 24 nonce sealed (omega arith),
        lib.aead.unseal-seal dk nonce key,
      )

  -- Round trip. A file key of 32 bytes that Create has locked with a passphrase, under a nonce of 24
  -- bytes, is what resolveKey finds with the same passphrase, whether or not the key was locked for
  -- a recipient before.
  pub resolve_key-lock_password :
      (r : Random) (key password nonce salt : Bytes) (m : Manifest) {locked : Manifest}
      → length key ≡ key_size
      → AllBytes key
      → r.password_nonce ≡ some nonce
      → length nonce ≡ nonce_size
      → AllBytes nonce
      → r.salt ≡ some salt
      → length salt ≢ 0
      → AllBytes salt
      → length password ≢ 0
      → lock_password lib r key password m ≡ ok locked
      → resolve_key lib locked (record { key = none; recipient_priv = none; password = password })
        ≡ ok key
  unfolding lock_password resolve_key sealed_key seal_bytes is_empty
  resolve_key-lock_password r key [] nonce salt m hk ak rn hn an rs hs as' hp l = absurd (hp refl)
  resolve_key-lock_password r key (c ∷ cs) nonce salt m {locked} hk ak rn hn an rs hs as' hp l =
      let dk = lib.derive (c ∷ cs) salt in
      let sealed = lib.aead.seal dk nonce key in
      let n : length (nonce ++ sealed) ≢ 0 = (omega (arith, length-append nonce sealed)) in
      found_password locked (nonce ++ sealed) salt (c ∷ cs)
        (ground (arith, lib.length-derive (c ∷ cs) salt))
        (ground (arith, lib.length-derive (c ∷ cs) salt))
        (append-AllBytes nonce sealed an (lib.seal-AllBytes dk nonce key ak)) as' n hs refl
      ∙ unlocked_password key (c ∷ cs) nonce salt hk hn

  -- A recipient lock touches three fields of the access record.
  recipient_shape :
      (r : Random) (key recipient_pub : Bytes) (m : Manifest) {locked : Manifest}
      → lock_recipient lib r key (some recipient_pub) m ≡ ok locked
      → locked ≡ record m {
        access = record m.access {
          wrapped_key = locked.access.wrapped_key;
          ephem_pub = locked.access.ephem_pub;
          kdf = locked.access.kdf;
        };
      }
  unfolding lock_recipient
  recipient_shape r key recipient_pub m h = ground arith

  abbrev password_over : Bytes → Bytes → Manifest → Manifest
  password_over w salt m = record m {
    access = record m.access {
      wrapped_key = hex_encode w;
      passphrase_salt = hex_encode salt;
      kdf = codes "argon2id";
    };
  }

  both_locks :
      (r : Random) (key recipient_pub : Bytes) (m : Manifest) {locked : Manifest}
      (both single : Manifest)
      → lock_recipient lib r key (some recipient_pub) m ≡ ok locked
      → (w salt : Bytes) → both ≡ password_over w salt locked
      → single ≡ password_over w salt m
      → both
        ≡ record single { access = record single.access { ephem_pub = locked.access.ephem_pub } }
  both_locks r key recipient_pub m {locked} both single l w salt b s =
      b
      ∙ ap (password_over w salt) (recipient_shape r key recipient_pub m l)
      ∙ ap
          (λ (x : Manifest). record x {
            access = record x.access { ephem_pub = locked.access.ephem_pub };
          })
          (sym s)

  -- With both locks the second one replaces the wrapped key: the manifest is in every field the one
  -- that the passphrase alone would give, but for the ephemeral public key, which stays. So the key
  -- that was wrapped for the recipient is nowhere in it.
  pub recipient_lock_lost :
      (r : Random) (key recipient_pub password : Bytes) (m : Manifest)
      {locked both single : Manifest}
      → length password ≢ 0
      → lock_recipient lib r key (some recipient_pub) m ≡ ok locked
      → lock_password lib r key password locked ≡ ok both
      → lock_password lib r key password m ≡ ok single
      → both
        ≡ record single { access = record single.access { ephem_pub = locked.access.ephem_pub } }
  unfolding lock_password
  recipient_lock_lost r key recipient_pub [] m h l b s = absurd (h refl)
  recipient_lock_lost r key recipient_pub (c ∷ cs) m {locked} {both} {single} h l b s =
      go r.salt refl
    where
      Goal : Type 0
      Goal =
          both
          ≡ record single { access = record single.access { ephem_pub = locked.access.ephem_pub } }

      sealed : Bytes → Result Bytes
      sealed salt = sealed_key (seal_bytes lib.aead r.password_nonce key (lib.derive (c ∷ cs) salt))

      done : (salt : Bytes) → r.salt ≡ some salt → (w : Result Bytes) → sealed salt ≡ w → Goal
      done salt i (err e) j = absurd (ground arith)
      done salt i (ok w) j =
          both_locks r key recipient_pub m both single l w salt (ground arith) (ground arith)

      go : (o : Option Bytes) → r.salt ≡ o → Goal
      go none i = absurd (ground arith)
      go (some salt) i = done salt i (sealed salt) refl
