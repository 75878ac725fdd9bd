-- ===== src/Examples/Toys.antt =====
-- Small ciphers, exchanges and signatures that satisfy the laws of the parameters.
use mathlib.Core.Path.{subst}
use dero_ghost_drop.Base.{
  ◌-◌, ◌≡◌, refl, sym, ap, true, some, [], ◌∷◌, ◌++◌, arith, Bytes, length, take, length-append,
  take-append_length,
}
use dero_ghost_drop.Strings.{AllBytes, append-AllBytes}
use dero_ghost_drop.Crypto.Aead.{Aead, overhead}
use dero_ghost_drop.Crypto.Wrap.{Exchange}
use dero_ghost_drop.Manifest.Signing.{Ed25519}
use dero_ghost_drop.Drops.Types.{Library}

abbrev pub tag : Bytes
tag = 0 ∷ 0 ∷ 0 ∷ 0 ∷ 0 ∷ 0 ∷ 0 ∷ 0 ∷ 0 ∷ 0 ∷ 0 ∷ 0 ∷ 0 ∷ 0 ∷ 0 ∷ 0 ∷ []

-- A key, a public key or a secret; a signature; and a nonce.
abbrev pub zeros32 : Bytes
zeros32 = tag ++ tag

abbrev pub zeros64 : Bytes
zeros64 = zeros32 ++ zeros32

abbrev pub nonce : Bytes
nonce = 9 ∷ 9 ∷ 9 ∷ 9 ∷ 9 ∷ 9 ∷ 9 ∷ 9 ∷ tag

pub tag-AllBytes : AllBytes tag
tag-AllBytes = omega arith

pub zeros32-AllBytes : AllBytes zeros32
zeros32-AllBytes = append-AllBytes tag tag tag-AllBytes tag-AllBytes

pub nonce-AllBytes : AllBytes nonce
nonce-AllBytes = omega arith

-- It appends sixteen zeros.
abbrev pub cipher : Aead
cipher = record {
  seal = λ key nonce plain. plain ++ tag;
  unseal = λ key nonce sealed. some (take (length sealed - overhead) sealed);
  unseal-seal = λ key nonce plain. ap some (
      take-append_length (length (plain ++ tag) - overhead) plain tag
        (omega (arith, length-append plain tag)));
  length-seal = λ key nonce plain. length-append plain tag;
}

-- Every exchange has the same secret.
abbrev pub exchange : Exchange
exchange = record {
  public = λ priv. some zeros32;
  shared = λ priv p. some zeros32;
  sha256 = λ msg. zeros32;
  shared_agree = λ a b pa pb h k. refl;
}

abbrev pub ed : Ed25519
ed = record {
  public_of = λ seed. zeros32;
  sign = λ priv msg. zeros64;
  verify = λ p msg sig. true;
  length-public_of = λ seed. refl;
  length-sign = λ priv msg. refl;
  public_of-AllBytes = λ seed. zeros32-AllBytes;
  sign-AllBytes = λ priv msg. append-AllBytes zeros32 zeros32 zeros32-AllBytes zeros32-AllBytes;
  verify_signed = λ seed msg h. refl;
}

pub some_inj : {x y : Bytes} → some x ≡ some y → x ≡ y
some_inj p = cc

-- A hash is the text itself.
abbrev pub lib : Library
lib = record {
  aead = cipher;
  exchange = exchange;
  ed = ed;
  marshal = λ m. [];
  derive = λ password salt. zeros32;
  hash = λ msg. msg;
  length-derive = λ password salt. refl;
  public-AllBytes = λ priv h. subst AllBytes (some_inj h) zeros32-AllBytes;
  length-public = λ priv h. ap length (sym (some_inj h));
  seal-AllBytes = λ key nonce plain h. append-AllBytes plain tag h tag-AllBytes;
}
