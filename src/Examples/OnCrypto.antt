-- ===== src/Examples/OnCrypto.antt =====
-- A file of three bytes, with a cipher that appends sixteen zeros.
use mathlib.Core.Option
use dero_ghost_drop.Base.{
  ℕ, zero, suc, ◌+◌, ◌-◌, ◌*◌, ◌≤◌, ◌≡◌, refl, some, [], ◌∷◌, ◌++◌, Bytes, length, take,
  length-append, take-append_length, false, arith, ap,
}
use dero_ghost_drop.Relay.Disk.{zeros}
use dero_ghost_drop.Crypto.Aead.{Aead, overhead}
use dero_ghost_drop.Crypto.Nonce.{nonce_size}
use dero_ghost_drop.Crypto.Gd01.{chunk_size, seal_file, open_file, Opened, opened}
use dero_ghost_drop.Crypto.Gd01.RoundTrip.{open_file-seal_file}
use dero_ghost_drop.Crypto.Gd01.Truncation.{chunk_bytes, open_truncated}

abbrev tag : Bytes
tag = 0 ∷ 0 ∷ 0 ∷ 0 ∷ 0 ∷ 0 ∷ 0 ∷ 0 ∷ 0 ∷ 0 ∷ 0 ∷ 0 ∷ 0 ∷ 0 ∷ 0 ∷ 0 ∷ []

abbrev cipher : Aead
cipher = record {
  seal = λ key nonce plain. plain ++ tag;
  unseal = λ key nonce sealed. some (take (length sealed - overhead) sealed);
  unseal-seal = λ key nonce plain. ap some (
      take-append_length (length (plain ++ tag) - overhead) plain tag
        (omega (arith, length-append plain tag)));
  length-seal = λ key nonce plain. length-append plain tag;
}

abbrev key : Bytes
key = 1 ∷ []

abbrev header_nonce : Bytes
header_nonce = 9 ∷ 9 ∷ 9 ∷ 9 ∷ 9 ∷ 9 ∷ 9 ∷ 9 ∷ tag

abbrev src : Bytes
src = 7 ∷ 8 ∷ 9 ∷ []

open_file-seal_file_example :
    Option.map {B = Opened × Bytes × ℕ}
      (λ s. (open_file cipher key s.written, s.hashed, s.total))
      (seal_file cipher key header_nonce src false)
    ≡ some (opened src, src, 3)
open_file-seal_file_example = open_file-seal_file cipher key header_nonce src refl

-- One full chunk and four bytes more, all zero.
abbrev long : Bytes
long = zeros 1048580

length-zeros : (n : ℕ) → length (zeros n) ≡ n
unfolding zeros
length-zeros zero = refl
length-zeros (suc n) = omega (arith, length-zeros n)

one_chunk : 1 * chunk_size ≤ length long
unfolding chunk_size
one_chunk = omega (arith, length-zeros 1048580)

open_truncated_example :
    Option.map
      (λ s. open_file cipher key (take (4 + nonce_size + 1 * chunk_bytes) s.written))
      (seal_file cipher key header_nonce long false)
    ≡ some (opened (take (1 * chunk_size) long))
open_truncated_example = open_truncated cipher key header_nonce long 1 refl one_chunk
