-- ===== src/Drops/Types.antt =====
-- internal/drops/manager.go: the data of the drop lifecycle, and what it takes from libraries.
use dero_ghost_drop.Base.{ℕ, ◌≡◌, refl, arith, Bool, Option, none, some, Bytes, codes, length}
use dero_ghost_drop.Strings.{AllBytes}
use dero_ghost_drop.Storage.Types as Storage
use dero_ghost_drop.Crypto.Aead.{Aead}
use dero_ghost_drop.Crypto.Wrap.{Exchange}
use dero_ghost_drop.Crypto.SingleShot.{key_size}
use dero_ghost_drop.Manifest.Types.{Manifest}
use dero_ghost_drop.Manifest.Signing.{Ed25519}
use dero_ghost_drop.Manifest.Validate.{Invalid}

pub data Status : Type 0 where
  preparing encrypting uploading ready delivered retrieved verified expired revoked failed : Status

unfoldable pub status_name : Status → Bytes
status_name preparing = codes "PREPARING"
status_name encrypting = codes "ENCRYPTING"
status_name uploading = codes "UPLOADING"
status_name ready = codes "READY"
status_name delivered = codes "DELIVERED"
status_name retrieved = codes "RETRIEVED"
status_name verified = codes "VERIFIED"
status_name expired = codes "EXPIRED"
status_name revoked = codes "REVOKED"
status_name failed = codes "FAILED"

pub data Error : Type 0 where
  bad_id no_file no_random no_temp cancelled not_found past_expiry mismatch : Error
  sealing opening locking no_lock bad_lock no_key unsigned_key : Error
  invalid : Invalid → Error
  storage : Storage.Error → Error

pub data Result (A : Type 0) : Type 0 where
  ok : A → Result A
  err : Error → Result A

infixl 5 ◌>>=◌
abbrev pub ◌>>=◌ : {A B : Type 0} → Result A → (A → Result B) → Result B
ok a >>= f = f a
err e >>= f = err e

-- The value of an optional result, or the error `e`.
abbrev pub need : {A : Type 0} → Error → Option A → Result A
need e none = err e
need e (some a) = ok a

-- The libraries: `derive` is Argon2id of a passphrase and a salt, `hash` the hex of SHA-256.
pub record Library : Type 0 where
  pub aead : Aead
  pub exchange : Exchange
  pub ed : Ed25519
  pub marshal : Manifest → Bytes
  pub derive : Bytes → Bytes → Bytes
  pub hash : Bytes → Bytes
  pub length-derive : (password salt : Bytes) → length (derive password salt) ≡ key_size
  pub public-AllBytes : (priv : Bytes) {p : Bytes} → exchange.public priv ≡ some p → AllBytes p
  pub length-public :
      (priv : Bytes) {p : Bytes} → exchange.public priv ≡ some p → length p ≡ key_size
  pub seal-AllBytes :
      (key nonce plain : Bytes) → AllBytes plain → AllBytes (aead.seal key nonce plain)

-- CreateOpts; `none` is a nil pointer or the zero time.
pub record CreateOpts : Type 0 where
  pub id : Bytes
  pub mode : Bytes
  pub sender_identity : Bytes
  pub recipient_commitment : Bytes
  pub expiry : Option ℕ
  pub one_time : Bool
  pub sign_priv : Bytes
  pub sign_by : Bytes
  pub recipient_pub : Option Bytes
  pub password : Bytes
  pub amount : ℕ
  pub paid_to : Bytes
  pub txid_required : Bool

pub record RetrieveOpts : Type 0 where
  pub key : Option Bytes
  pub recipient_priv : Option Bytes
  pub password : Bytes

-- What the random source gives to a Create, `none` where it fails.
pub record Random : Type 0 where
  pub id : Bytes
  pub file_key : Option Bytes
  pub header_nonce : Option Bytes
  pub name_nonce : Option Bytes
  pub ephem_priv : Option Bytes
  pub wrap_nonce : Option Bytes
  pub salt : Option Bytes
  pub password_nonce : Option Bytes

-- The file at srcPath: its base name, its bytes, and whether reading fails behind them.
pub record Source : Type 0 where
  pub name : Bytes
  pub bytes : Bytes
  pub fails : Bool

-- A chain that gives a result has gone through its first step.
pub bind_ok :
    {A B : Type 0} (x : Result A) (f : A → Result B) {b : B}
    → (x >>= f) ≡ ok b
    → (a : A) × (x ≡ ok a) × (f a ≡ ok b)
bind_ok (ok a) f h = (a, refl, h)
bind_ok (err e) f h = absurd (ground arith)
