-- ===== src/Manifest/Signing.antt =====
-- CanonicalBytes, Sign and Verify of internal/manifest/manifest.go, with Sign and Verify of
-- internal/crypto/crypto.go. Ed25519 and the JSON of a manifest are libraries': parameters.
use dero_ghost_drop.Base.{
  ◌≡◌, Bool, true, false, not, ◌||◌, Option, none, some, ◌++◌, arith, Bytes, ◌>>=◌, ◌==◌, length,
  drop, length-append, drop-append_length, if◌then◌else◌,
}
use dero_ghost_drop.Strings.{hex_encode, hex_decode, AllBytes, hex_decode-hex_encode}
use dero_ghost_drop.Manifest.Types.{Manifest, unsigned}
use dero_ghost_drop.Manifest.Validate.{is_empty, is_empty-hex_encode}

-- A private key is a seed followed by the public key of the seed.
pub record Ed25519 : Type 0 where
  pub public_of : Bytes → Bytes
  pub sign : Bytes → Bytes → Bytes
  pub verify : Bytes → Bytes → Bytes → Bool
  pub length-public_of : (seed : Bytes) → length (public_of seed) ≡ 32
  pub length-sign : (priv msg : Bytes) → length (sign priv msg) ≡ 64
  pub public_of-AllBytes : (seed : Bytes) → AllBytes (public_of seed)
  pub sign-AllBytes : (priv msg : Bytes) → AllBytes (sign priv msg)
  pub verify_signed :
      (seed msg : Bytes)
      → length seed ≡ 32
      → verify (public_of seed) msg (sign (seed ++ public_of seed) msg) ≡ true

module _ (ed : Ed25519) where
  -- crypto.Sign
  unfoldable pub sign_message : Bytes → Bytes → Option Bytes
  sign_message priv msg = if length priv == 64 then some (ed.sign priv msg) else none

  -- crypto.Verify
  unfoldable pub verify_message : Bytes → Bytes → Bytes → Bool
  verify_message public msg sig =
      if not (length public == 32) || not (length sig == 64)
      then false
      else ed.verify public msg sig

  -- pubFromPriv
  unfoldable pub pub_from_priv : Bytes → Option Bytes
  pub_from_priv priv =
      if length priv == 32
      then some (ed.public_of priv)
      else if length priv == 64
      then some (drop 32 priv)
      else none

module _ (ed : Ed25519) (marshal : Manifest → Bytes) where
  unfoldable pub canonical_bytes : Manifest → Bytes
  canonical_bytes m = marshal (record m { signature = unsigned })

  -- Sign
  unfoldable pub sign : Bytes → Bytes → Manifest → Option Manifest
  sign priv by m = do
    sig ← sign_message ed priv (canonical_bytes m)
    public ← pub_from_priv ed priv
    some (record m {
      signature = record { by = by; public = hex_encode public; sig = hex_encode sig };
    })

  unfoldable pub verify_decoded : Manifest → Option Bytes → Option Bytes → Bool
  verify_decoded m (some public) (some sig) = verify_message ed public (canonical_bytes m) sig
  verify_decoded m _ _ = false

  -- Verify
  unfoldable pub verify : Manifest → Bool
  verify m =
      if is_empty m.signature.public || is_empty m.signature.sig
      then false
      else verify_decoded m (hex_decode m.signature.public) (hex_decode m.signature.sig)

  abbrev pub verified : Option Manifest → Bool
  verified none = false
  verified (some m) = verify m

  -- Round trip. A manifest signed with the full private key of a 32-byte seed is signed without an error, and
  -- it verifies. With the seed alone signing is refused, although its public key can be derived.
  pub verify-sign :
      (seed by : Bytes) (m : Manifest)
      → length seed ≡ 32
      → (verified (sign (seed ++ ed.public_of seed) by m) ≡ true)
        × (sign seed by m ≡ none)
        × (pub_from_priv ed seed ≡ some (ed.public_of seed))
  unfolding sign verify sign_message pub_from_priv verify_decoded verify_message canonical_bytes
  verify-sign seed by m h =
      let public = ed.public_of seed in
      let sig = ed.sign (seed ++ public) (marshal (record m { signature = unsigned })) in
      (
        ground (
          arith,
          ed.length-public_of seed,
          length-append seed public,
          drop-append_length 32 seed public,
          hex_decode-hex_encode public (ed.public_of-AllBytes seed),
          hex_decode-hex_encode sig
              (ed.sign-AllBytes (seed ++ public) (marshal (record m { signature = unsigned }))),
          ed.length-sign (seed ++ public) (marshal (record m { signature = unsigned })),
          is_empty-hex_encode public,
          is_empty-hex_encode sig,
          ed.verify_signed seed (marshal (record m { signature = unsigned })) h,
        ),
        ground arith,
        ground arith,
      )
