-- ===== src/Crypto/Gd01/Sealed.antt =====
-- A file that SealFile has written, whatever its source.
use mathlib.Core.Option
use dero_ghost_drop.Base.{
  ℕ, zero, suc, ◌≡◌, ◌∙◌, refl, sym, ap, Bool, true, false, none, some, arith, Bytes, length,
}
use dero_ghost_drop.Crypto.Aead.{Aead}
use dero_ghost_drop.Crypto.Nonce.{nonce_size}
use dero_ghost_drop.Crypto.Gd01.{Sealing, Opened, seal_loop, seal_file, open_file, opened}
use dero_ghost_drop.Crypto.Gd01.RoundTrip.{open_file-seal_file}

-- A source that fails is never sealed.
seal_loop_fails :
    (aead : Aead) (key header_nonce : Bytes) (fuel : ℕ) (src : Bytes) (s : Sealing)
    → seal_loop aead key header_nonce fuel src true s ≡ none
unfolding seal_loop
seal_loop_fails aead key header_nonce zero src s = refl
seal_loop_fails aead key header_nonce (suc fuel) src s =
    grind (arith, seal_loop_fails aead key header_nonce fuel)

seal_file_fails :
    (aead : Aead) (key header_nonce src : Bytes) → seal_file aead key header_nonce src true ≡ none
unfolding seal_file
seal_file_fails aead key header_nonce src =
    seal_loop_fails aead key header_nonce (suc (length src)) src _

-- Whatever SealFile makes of a source opens to the source, whose bytes it has hashed.
pub sealed_opens :
    (aead : Aead) (key header_nonce src : Bytes) (fails : Bool) (s : Sealing)
    → length header_nonce ≡ nonce_size
    → seal_file aead key header_nonce src fails ≡ some s
    → (open_file aead key s.written ≡ opened src) × (s.hashed ≡ src)
sealed_opens aead key header_nonce src true s h e =
    absurd (ground (arith, seal_file_fails aead key header_nonce src))
sealed_opens aead key header_nonce src false s h e =
    let k =
      sym (
        ap
          (Option.map {B = Opened × Bytes × ℕ}
            (λ s. (open_file aead key s.written, s.hashed, s.total)))
          e)
      ∙ open_file-seal_file aead key header_nonce src h in
    (ground arith, ground arith)
