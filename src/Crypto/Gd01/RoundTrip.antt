-- ===== src/Crypto/Gd01/RoundTrip.antt =====
-- OpenFile gives back what SealFile was given.
use mathlib.Core.Option
use mathlib.Core.List.{append_assoc, append-nil}
use dero_ghost_drop.Base.{
  ℕ, zero, suc, ◌≤◌, ◌<◌, ◌≡◌, refl, sym, ap, ◌∙◌, false, Option, none, some, [], ◌∷◌, ◌++◌, arith,
  Bytes, length, take, drop, length-take, length-drop, length-append, take-append-drop,
  take-append_length, drop-append_length, bytes_eq,
}
use dero_ghost_drop.Crypto.Aead.{Aead}
use dero_ghost_drop.Crypto.Words.{be32, read_be32, read_be32-be32}
use dero_ghost_drop.Crypto.Nonce.{chunk_nonce, nonce_size}
use dero_ghost_drop.Crypto.Gd01.{
  chunk_size, magic, Sealing, seal_file, open_sealed, open_chunk, open_loop, open_file, Opened,
  opened,
}
use dero_ghost_drop.Crypto.Gd01.Chunks.{
  chunk, chunks, report, chunks_nil, seal_loop-chunks, chunk_size_pos,
}

module _ (aead : Aead) (key header_nonce : Bytes) where
  open_chunk-chunk :
      (index : ℕ) (plain rest : Bytes) (next : Bytes → Bytes → Opened)
      → length plain ≤ chunk_size
      → open_chunk aead key header_nonce index
          (read_be32 (chunk aead key header_nonce index plain ++ rest))
          next
        ≡ next rest plain
  unfolding open_chunk chunk open_sealed chunk_size
  open_chunk-chunk index plain rest next h =
      let nonce = chunk_nonce header_nonce index in
      let sealed = aead.seal key nonce plain in
      ground (
        arith,
        append_assoc (be32 (length sealed)) sealed rest,
        read_be32-be32 (length sealed) (sealed ++ rest),
        aead.length-seal key nonce plain,
        aead.unseal-seal key nonce plain,
        take-append_length (length sealed) sealed rest,
        drop-append_length (length sealed) sealed rest,
        length-append sealed rest,
      )

  pub open_loop-chunk :
      (fuel index : ℕ) (plain rest out : Bytes)
      → length plain ≤ chunk_size
      → open_loop aead key
          (suc fuel)
          header_nonce
          (chunk aead key header_nonce index plain ++ rest)
          index
          out
        ≡ open_loop aead key fuel header_nonce rest (suc index) (out ++ plain)
  unfolding open_loop chunk be32
  open_loop-chunk fuel index plain rest out h =
      open_chunk-chunk index plain rest
        (λ src p. open_loop aead key fuel header_nonce src (suc index) (out ++ p)) h

  -- A chunk is at least as long as what it seals, so it takes fuel off.
  length-chunk : (index : ℕ) (plain : Bytes) → 0 < length (chunk aead key header_nonce index plain)
  unfolding chunk be32
  length-chunk index plain = omega arith

  pub chunks-suc :
      (fuel index : ℕ) (src : Bytes)
      → 0 < length src
      → chunks aead key header_nonce (suc fuel) index src
        ≡ chunk aead key header_nonce index (take chunk_size src)
          ++ chunks aead key header_nonce fuel (suc index) (drop chunk_size src)
  unfolding chunks
  chunks-suc fuel index src h = ground arith

  pub open_nil :
      (fuel index : ℕ) (out : Bytes)
      → open_loop aead key (suc fuel) header_nonce [] index out ≡ opened out
  unfolding open_loop
  open_nil fuel index out = refl

  open_loop-chunks :
      (fuel more index : ℕ) (src out : Bytes)
      → length src < fuel
      → length (chunks aead key header_nonce fuel index src) < more
      → open_loop aead key more header_nonce (chunks aead key header_nonce fuel index src) index out
        ≡ opened (out ++ src)
  open_loop-chunks fuel zero index src out h g = absurd (omega arith)
  open_loop-chunks zero (suc more) index src out h g = absurd (omega arith)
  open_loop-chunks (suc fuel) (suc more) index [] out h g =
      ap (λ x. open_loop aead key (suc more) header_nonce x index out)
        (chunks_nil aead key header_nonce (suc fuel) index)
      ∙ (open_nil more index out ∙ ap opened (sym (append-nil out)))
  open_loop-chunks (suc fuel) (suc more) index (b ∷ src) out h g =
      rw (chunks-suc fuel index (b ∷ src) (omega arith)) (
        open_loop-chunk more index (take chunk_size (b ∷ src))
          (chunks aead key header_nonce fuel (suc index) (drop chunk_size (b ∷ src))) out
          (omega (arith, length-take chunk_size (b ∷ src)))
        ∙ (open_loop-chunks fuel more (suc index) (drop chunk_size (b ∷ src))
              (out ++ take chunk_size (b ∷ src))
              (omega (arith, chunk_size_pos, length-drop chunk_size (b ∷ src)))
              (omega (
                arith,
                ap length (chunks-suc fuel index (b ∷ src) (omega arith)),
                length-append (chunk aead key header_nonce index (take chunk_size (b ∷ src)))
                    (chunks aead key header_nonce fuel (suc index) (drop chunk_size (b ∷ src))),
                length-chunk index (take chunk_size (b ∷ src)),
              ))
            ∙ ap opened (
                append_assoc out (take chunk_size (b ∷ src)) (drop chunk_size (b ∷ src))
                ∙ ap (λ x. out ++ x) (take-append-drop chunk_size (b ∷ src)))))

  -- The header is read back, and the rest goes to the loop.
  pub open_header :
      (body : Bytes)
      → length header_nonce ≡ nonce_size
      → open_file aead key ((magic ++ header_nonce) ++ body)
        ≡ open_loop aead key (suc (length (header_nonce ++ body))) header_nonce body 0 []
  unfolding open_file magic bytes_eq
  open_header body h = ground (
    arith,
    length-append header_nonce body,
    take-append_length nonce_size header_nonce body,
    drop-append_length nonce_size header_nonce body,
  )

  pub seal_file-chunks :
      (src : Bytes)
      → Option.map (report aead key header_nonce) (seal_file aead key header_nonce src false)
        ≡ some (
          (magic ++ header_nonce) ++ chunks aead key header_nonce (suc (length src)) 0 src,
          src,
          length src,
        )
  unfolding seal_file report
  seal_file-chunks src =
      seal_loop-chunks aead key header_nonce (suc (length src)) src
        (record { written = magic ++ header_nonce; hashed = []; total = 0; index = 0 })
        (omega arith)
      ∙ ap
          (λ n. some (
            (magic ++ header_nonce) ++ chunks aead key header_nonce (suc (length src)) 0 src,
            src,
            n,
          ))
          (omega arith)

  pub seal_file_seen {ℓ} :
      {B : Type ℓ} (see : Bytes → Bytes → ℕ → B) (src : Bytes)
      → Option.map (λ s. see s.written s.hashed s.total) (seal_file aead key header_nonce src false)
        ≡ some (
            see
              ((magic ++ header_nonce) ++ chunks aead key header_nonce (suc (length src)) 0 src)
              src
              (length src))
  unfolding report
  seal_file_seen see src = go (seal_file aead key header_nonce src false) (seal_file-chunks src)
    where
      go :
          (m : Option Sealing) {w h : Bytes} {n : ℕ}
          → Option.map (report aead key header_nonce) m ≡ some (w, h, n)
          → Option.map (λ s. see s.written s.hashed s.total) m ≡ some (see w h n)
      go none e = cc
      go (some s) e = ap (Option.map (λ (w, p, n). see w p n)) e

-- Round trip. SealFile of a source that can be read to its end produces a file, from which OpenFile
-- with the same key gives back the source. It has hashed the source's bytes as the plaintext and
-- counted them.
pub open_file-seal_file :
    (aead : Aead) (key header_nonce src : Bytes)
    → length header_nonce ≡ nonce_size
    → Option.map {B = Opened × Bytes × ℕ}
        (λ s. (open_file aead key s.written, s.hashed, s.total))
        (seal_file aead key header_nonce src false)
      ≡ some (opened src, src, length src)
open_file-seal_file aead key header_nonce src h =
    seal_file_seen aead key header_nonce {B = Opened × Bytes × ℕ}
      (λ w p n. (open_file aead key w, p, n)) src
    ∙ ap (λ o. some (o, src, length src))
        (open_header aead key header_nonce (chunks aead key header_nonce (suc (length src)) 0 src) h
          ∙ open_loop-chunks aead key header_nonce (suc (length src))
              (suc (length (header_nonce ++ chunks aead key header_nonce (suc (length src)) 0 src)))
              0 src [] (omega arith)
              (omega (
                arith,
                length-append header_nonce (chunks aead key header_nonce (suc (length src)) 0 src),
              )))
