-- ===== src/Crypto/Gd01/Chunks.antt =====
-- The chunks that SealFile writes, as a function of the plaintext alone, and what its loop computes.
use dero_ghost_drop.Base.{
  ℕ, zero, suc, ◌+◌, ◌≤◌, ◌<◌, ◌≡◌, refl, false, some, [], ◌++◌, arith, Bytes, ◌⊎◌, inl, inr,
  length, take, drop, ltb, if◌then◌else◌, length-take, length-drop, take-append-drop,
  take_of_length-le, drop_of_length-le, eq_nil_of_length,
}
use mathlib.Core.Option
use mathlib.Core.List.{append_assoc, append-nil}
use dero_ghost_drop.Crypto.Aead.{Aead}
use dero_ghost_drop.Crypto.Words.{be32}
use dero_ghost_drop.Crypto.Nonce.{chunk_nonce}
use dero_ghost_drop.Crypto.Gd01.{chunk_size, Sealing, seal_chunk, seal_loop}

pub chunk_size_pos : 0 < chunk_size
unfolding chunk_size
chunk_size_pos = omega arith

pub size_cases : (n : ℕ) → (n < chunk_size) ⊎ (chunk_size ≤ n)
size_cases n = omega arith

module _ (aead : Aead) (key header_nonce : Bytes) where
  -- One chunk: the length of the sealed text, and the sealed text.
  unfoldable pub chunk : ℕ → Bytes → Bytes
  chunk index plain =
      let sealed = Aead.seal aead key (chunk_nonce header_nonce index) plain in
      be32 (length sealed) ++ sealed

  unfoldable pub chunks : ℕ → ℕ → Bytes → Bytes
  chunks zero index src = []
  chunks (suc fuel) index src =
      let rest = chunks fuel (suc index) (drop chunk_size src) in
      if ltb 0 (length src) then chunk index (take chunk_size src) ++ rest else []

  -- What a run of SealFile tells: the bytes written, the bytes hashed, their number.
  unfoldable pub report : Sealing → Bytes × Bytes × ℕ
  report s = (s.written, s.hashed, s.total)

  report-seal_chunk :
      (plain : Bytes) (s : Sealing)
      → report (seal_chunk aead key header_nonce plain s)
        ≡ (s.written ++ chunk s.index plain, s.hashed ++ plain, s.total + length plain)
  unfolding report seal_chunk chunk
  report-seal_chunk plain s = refl

  pub chunks_nil : (fuel index : ℕ) → chunks fuel index [] ≡ []
  unfolding chunks
  chunks_nil zero index = refl
  chunks_nil (suc fuel) index = refl

  seal_loop_last :
      (fuel : ℕ) (src : Bytes) (s : Sealing)
      → length src < chunk_size
      → Option.map report (seal_loop aead key header_nonce (suc fuel) src false s)
        ≡ some (s.written ++ chunks (suc fuel) s.index src, s.hashed ++ src, s.total + length src)
  unfolding seal_loop chunks report seal_chunk chunk
  seal_loop_last fuel src s l = ground (
    arith,
    take_of_length-le chunk_size src,
    drop_of_length-le chunk_size src,
    eq_nil_of_length src,
    chunks_nil fuel (suc s.index),
    append-nil s.written,
    append-nil s.hashed,
    append-nil (chunk s.index src),
  )

  seal_loop_more :
      (fuel : ℕ) (src : Bytes) (s : Sealing)
      → chunk_size ≤ length src
      → (Option.map report (
            seal_loop aead key header_nonce fuel
              (drop chunk_size src)
              false
              (seal_chunk aead key header_nonce (take chunk_size src) s))
          ≡ some (
            (seal_chunk aead key header_nonce (take chunk_size src) s).written
                ++ chunks fuel (suc s.index) (drop chunk_size src),
            (s.hashed ++ take chunk_size src) ++ drop chunk_size src,
            s.total + length (take chunk_size src) + length (drop chunk_size src),
          ))
      → Option.map report (seal_loop aead key header_nonce (suc fuel) src false s)
        ≡ some (s.written ++ chunks (suc fuel) s.index src, s.hashed ++ src, s.total + length src)
  unfolding seal_loop chunks seal_chunk chunk
  seal_loop_more fuel src s g h = ground (
    arith,
    chunk_size_pos,
    length-take chunk_size src,
    length-drop chunk_size src,
    take-append-drop chunk_size src,
    append_assoc s.hashed (take chunk_size src) (drop chunk_size src),
    append_assoc s.written (chunk s.index (take chunk_size src))
        (chunks fuel (suc s.index) (drop chunk_size src)),
  )

  -- With more fuel than the source has bytes the loop runs to its end.
  pub seal_loop-chunks :
      (fuel : ℕ) (src : Bytes) (s : Sealing)
      → length src < fuel
      → Option.map report (seal_loop aead key header_nonce fuel src false s)
        ≡ some (s.written ++ chunks fuel s.index src, s.hashed ++ src, s.total + length src)
  unfolding seal_chunk
  seal_loop-chunks zero src s h = absurd (omega arith)
  seal_loop-chunks (suc fuel) src s h = elim (size_cases (length src)) [
    | inl l ↦ seal_loop_last fuel src s l
    | inr g ↦ seal_loop_more fuel src s g (
        seal_loop-chunks fuel (drop chunk_size src)
          (seal_chunk aead key header_nonce (take chunk_size src) s)
          (omega (arith, chunk_size_pos, length-drop chunk_size src)))
  ]
