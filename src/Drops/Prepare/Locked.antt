-- ===== src/Drops/Prepare/Locked.antt =====
-- The key behind the manifest that Create of internal/drops/manager.go finishes for a recipient.
use mathlib.Core.Path.{subst}
use dero_ghost_drop.Base.{◌≡◌, ◌∙◌, refl, ap, none, some, [], ◌∷◌, arith, Bytes, length}
use dero_ghost_drop.Strings.{AllBytes}
use dero_ghost_drop.Crypto.Nonce.{nonce_size}
use dero_ghost_drop.Crypto.SingleShot.{key_size}
use dero_ghost_drop.Manifest.Types.{Manifest}
use dero_ghost_drop.Manifest.Signing.{sign}
use dero_ghost_drop.Drops.Types.{ok, bind_ok, ◌>>=◌, Library, CreateOpts, Random}
use dero_ghost_drop.Drops.Locks.{lock_recipient, lock_password, resolve_key, resolve_lock}
use dero_ghost_drop.Drops.Locks.RoundTrip.{resolve_key-lock_recipient}
use dero_ghost_drop.Drops.Prepare.{signed, checked, finished}

module _ (lib : Library) where
  signed-access :
      (priv by : Bytes) (m : Manifest) {n : Manifest}
      → signed lib priv by m ≡ ok n
      → n.access ≡ m.access
  unfolding signed sign
  signed-access [] by m h = ground arith
  signed-access (c ∷ p) by m h = ground arith

  checked-access : (m : Manifest) {n : Manifest} → checked lib m ≡ ok n → n.access ≡ m.access
  unfolding checked
  checked-access m h = ground arith

  no_password :
      (r : Random) (key password : Bytes) (m : Manifest) {n : Manifest}
      → password ≡ []
      → lock_password lib r key password m ≡ ok n
      → n ≡ m
  unfolding lock_password
  no_password r key [] m e h = ground arith
  no_password r key (c ∷ cs) m e h = absurd (ground arith)

  -- The signature and the checks leave the locks alone.
  finished-access :
      (o : CreateOpts) (r : Random) (key : Bytes) (m : Manifest) {man : Manifest}
      → o.password ≡ []
      → finished lib o r key m ≡ ok man
      → (locked : Manifest) × (lock_recipient lib r key o.recipient_pub m ≡ ok locked)
        × (man.access ≡ locked.access)
  unfolding finished
  finished-access o r key m p h =
      let sign_it = signed lib o.sign_priv o.sign_by in
      let lock_it = lock_password lib r key o.password in
      let (a, ea, ha) =
        bind_ok (lock_recipient lib r key o.recipient_pub m)
          (λ a. lock_it a >>= (λ b. sign_it b >>= checked lib)) h in
      let (b, eb, hb) = bind_ok (lock_it a) (λ b. sign_it b >>= checked lib) ha in
      let (c, ec, hc) = bind_ok (sign_it b) (checked lib) hb in
      (
        a,
        ea,
        checked-access c hc
            ∙ signed-access o.sign_priv o.sign_by b ec
            ∙ ap Manifest.access (no_password r key o.password a p eb),
      )

  -- resolveKey reads nothing but the access record.
  resolve_key-access :
      (m n : Manifest) (priv password : Bytes)
      → m.access ≡ n.access
      → resolve_key lib m (record { key = none; recipient_priv = some priv; password = password })
        ≡ resolve_key lib n (record { key = none; recipient_priv = some priv; password = password })
  unfolding resolve_key resolve_lock
  resolve_key-access m n priv password e = rw e refl

  -- Round trip. Let Create lock a file key of 32 bytes for a recipient's public key, with a nonce of
  -- 24 bytes, and with no passphrase. In the manifest that it finishes, signed and validated,
  -- resolveKey finds this key with the recipient's private key.
  pub resolve_key-finished :
      (o : CreateOpts) (r : Random) (key priv recipient_pub nonce password : Bytes) (m : Manifest)
      {man : Manifest}
      → length key ≡ key_size
      → AllBytes key
      → r.wrap_nonce ≡ some nonce
      → length nonce ≡ nonce_size
      → AllBytes nonce
      → lib.exchange.public priv ≡ some recipient_pub
      → o.recipient_pub ≡ some recipient_pub
      → o.password ≡ []
      → finished lib o r key m ≡ ok man
      → resolve_key lib man (record { key = none; recipient_priv = some priv; password = password })
        ≡ ok key
  resolve_key-finished o r key priv recipient_pub nonce password m {man} hk ak rn hn an hp to np h =
      let (locked, l, e) = finished-access o r key m np h in
      resolve_key-access man locked priv password e
      ∙ resolve_key-lock_recipient lib r key priv recipient_pub nonce password m hk ak rn hn an hp
          (subst (λ p. lock_recipient lib r key p m ≡ ok locked) to l)
