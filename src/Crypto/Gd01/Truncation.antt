-- ===== src/Crypto/Gd01/Truncation.antt =====
-- A sealed file that is cut off behind a whole number of chunks.
use mathlib.Core.Option
use mathlib.Core.List.{append_assoc, append-nil}
use dero_ghost_drop.Base.{
  ℕ, zero, suc, ◌+◌, ◌*◌, ◌≤◌, ◌<◌, ◌≡◌, refl, sym, ap, ◌∙◌, false, some, [], ◌∷◌, ◌++◌, arith,
  Bytes, length, take, drop, length-take, length-drop, length-append, take-append-drop,
}
use dero_ghost_drop.Crypto.Aead.{Aead, overhead}
use dero_ghost_drop.Crypto.Words.{be32}
use dero_ghost_drop.Crypto.Nonce.{chunk_nonce, nonce_size}
use dero_ghost_drop.Crypto.Gd01.{chunk_size, magic, seal_file, open_loop, open_file, opened}
use dero_ghost_drop.Crypto.Gd01.Chunks.{chunk, chunks, chunk_size_pos}
use dero_ghost_drop.Crypto.Gd01.RoundTrip.{
  open_loop-chunk, chunks-suc, open_nil, open_header, seal_file_seen,
}

-- The bytes of a sealed chunk of full size.
abbrev pub chunk_bytes : ℕ
chunk_bytes = 4 + chunk_size + overhead

take_append_more : (n : ℕ) (xs ys : Bytes) → take (length xs + n) (xs ++ ys) ≡ xs ++ take n ys
take_append_more n [] ys = rw (zero_add n) refl
  where
    zero_add : (n : ℕ) → 0 + n ≡ n
    zero_add n = omega arith
take_append_more n (x ∷ xs) ys =
    rw (suc_add (length xs) n) (ap (λ zs. x ∷ zs) (take_append_more n xs ys))
  where
    suc_add : (m n : ℕ) → suc m + n ≡ suc (m + n)
    suc_add m n = omega arith

mul_suc : (k n : ℕ) → suc k * n ≡ n + k * n
mul_suc k n = grind arith

zero_mul : (n : ℕ) → 0 * n ≡ 0
zero_mul n = omega arith

le_mul : (k : ℕ) → k ≤ k * chunk_bytes
unfolding chunk_size
le_mul k = omega arith

take_first :
    (n k : ℕ) (xs : Bytes)
    → n ≤ length xs
    → take (suc k * n) xs ≡ take n xs ++ take (k * n) (drop n xs)
take_first n k xs h =
    ap (take (suc k * n)) (sym (take-append-drop n xs))
    ∙ (ap (λ m. take m (take n xs ++ drop n xs)) (omega (arith, mul_suc k n, length-take n xs))
        ∙ take_append_more (k * n) (take n xs) (drop n xs))

module _ (aead : Aead) (key header_nonce : Bytes) where
  length-chunk_full :
      (index : ℕ) (src : Bytes)
      → chunk_size ≤ length src
      → length (chunk aead key header_nonce index (take chunk_size src)) ≡ chunk_bytes
  unfolding chunk be32
  length-chunk_full index src h =
      let plain = take chunk_size src in
      let nonce = chunk_nonce header_nonce index in
      omega (
        arith,
        aead.length-seal key nonce plain,
        length-append (be32 (length (aead.seal key nonce plain))) (aead.seal key nonce plain),
        length-take chunk_size src,
      )

  take-chunks :
      (k fuel index : ℕ) (src : Bytes)
      → 0 < length src
      → chunk_size ≤ length src
      → take (suc k * chunk_bytes) (chunks aead key header_nonce (suc fuel) index src)
        ≡ chunk aead key header_nonce index (take chunk_size src)
          ++ take
              (k * chunk_bytes)
              (chunks aead key header_nonce fuel (suc index) (drop chunk_size src))
  take-chunks k fuel index src p h =
      let first = chunk aead key header_nonce index (take chunk_size src) in
      let rest = chunks aead key header_nonce fuel (suc index) (drop chunk_size src) in
      ap (take (suc k * chunk_bytes)) (chunks-suc aead key header_nonce fuel index src p)
      ∙ (ap (λ m. take m (first ++ rest))
            (mul_suc k chunk_bytes
              ∙ ap (λ m. m + k * chunk_bytes) (sym (length-chunk_full index src h)))
          ∙ take_append_more (k * chunk_bytes) first rest)

  open_loop-take :
      (k fuel more index : ℕ) (src out : Bytes)
      → k * chunk_size ≤ length src
      → length src < fuel
      → k < more
      → open_loop aead key more header_nonce
          (take (k * chunk_bytes) (chunks aead key header_nonce fuel index src))
          index
          out
        ≡ opened (out ++ take (k * chunk_size) src)
  open_loop-take k fuel zero index src out h f g = absurd (omega arith)
  open_loop-take k zero (suc more) index src out h f g = absurd (omega arith)
  open_loop-take zero (suc fuel) (suc more) index src out h f g =
      rw (zero_mul chunk_bytes, zero_mul chunk_size)
        (open_nil aead key header_nonce more index out ∙ ap opened (sym (append-nil out)))
  open_loop-take (suc k) (suc fuel) (suc more) index src out h f g =
      rw
        (
          take-chunks k fuel index src (omega (arith, chunk_size_pos, mul_suc k chunk_size))
              (omega (arith, mul_suc k chunk_size)),
          take_first chunk_size k src (omega (arith, mul_suc k chunk_size)),
        )
        (open_loop-chunk aead key header_nonce more index (take chunk_size src)
            (take (k * chunk_bytes)
              (chunks aead key header_nonce fuel (suc index) (drop chunk_size src)))
            out (omega (arith, length-take chunk_size src))
          ∙ (open_loop-take k fuel more (suc index) (drop chunk_size src)
                (out ++ take chunk_size src)
                (omega (arith, mul_suc k chunk_size, length-drop chunk_size src))
                (omega (arith, chunk_size_pos, mul_suc k chunk_size, length-drop chunk_size src))
                (omega arith)
              ∙ ap opened (
                  append_assoc out (take chunk_size src)
                    (take (k * chunk_size) (drop chunk_size src)))))

  le_length-chunks :
      (k fuel index : ℕ) (src : Bytes)
      → k * chunk_size ≤ length src
      → length src < fuel
      → k * chunk_bytes ≤ length (chunks aead key header_nonce fuel index src)
  le_length-chunks k zero index src h f = absurd (omega arith)
  le_length-chunks zero (suc fuel) index src h f = omega arith
  le_length-chunks (suc k) (suc fuel) index src h f =
      let whole : chunk_size ≤ length src = omega (arith, mul_suc k chunk_size) in
      omega (
        arith,
        mul_suc k chunk_bytes,
        ap length (chunks-suc aead key header_nonce fuel index src (omega (arith, chunk_size_pos))),
        length-append (chunk aead key header_nonce index (take chunk_size src))
            (chunks aead key header_nonce fuel (suc index) (drop chunk_size src)),
        length-chunk_full index src whole,
        le_length-chunks k fuel (suc index) (drop chunk_size src)
            (omega (arith, mul_suc k chunk_size, length-drop chunk_size src))
            (omega (arith, chunk_size_pos, length-drop chunk_size src)),
      )

  open_file-take :
      (k : ℕ) (src : Bytes)
      → length header_nonce ≡ nonce_size
      → k * chunk_size ≤ length src
      → open_file aead key (
          (magic ++ header_nonce)
          ++ take (k * chunk_bytes) (chunks aead key header_nonce (suc (length src)) 0 src))
        ≡ opened (take (k * chunk_size) src)
  open_file-take k src h le =
      let file = chunks aead key header_nonce (suc (length src)) 0 src in
      open_header aead key header_nonce (take (k * chunk_bytes) file) h
      ∙ open_loop-take k (suc (length src))
          (suc (length (header_nonce ++ take (k * chunk_bytes) file))) 0 src [] le (omega arith)
          (omega (
            arith,
            le_mul k,
            length-append header_nonce (take (k * chunk_bytes) file),
            length-take (k * chunk_bytes) file,
            le_length-chunks k (suc (length src)) 0 src le (omega arith),
          ))

  take_header :
      (n : ℕ) (body : Bytes)
      → length header_nonce ≡ nonce_size
      → take (4 + nonce_size + n) ((magic ++ header_nonce) ++ body)
        ≡ (magic ++ header_nonce) ++ take n body
  unfolding magic
  take_header n body h =
      ap (λ m. take m ((magic ++ header_nonce) ++ body))
        (omega (arith, length-append magic header_nonce))
      ∙ take_append_more n (magic ++ header_nonce) body

-- A sealed file that is cut off behind any number of full chunks is opened without an error: the
-- output is the beginning of the source, and nothing tells that the rest is missing.
pub open_truncated :
    (aead : Aead) (key header_nonce src : Bytes) (k : ℕ)
    → length header_nonce ≡ nonce_size
    → k * chunk_size ≤ length src
    → Option.map
        (λ s. open_file aead key (take (4 + nonce_size + k * chunk_bytes) s.written))
        (seal_file aead key header_nonce src false)
      ≡ some (opened (take (k * chunk_size) src))
open_truncated aead key header_nonce src k h le =
    let file = chunks aead key header_nonce (suc (length src)) 0 src in
    seal_file_seen aead key header_nonce
      (λ w p n. open_file aead key (take (4 + nonce_size + k * chunk_bytes) w)) src
    ∙ ap some (
        ap (open_file aead key) (take_header aead key header_nonce (k * chunk_bytes) file h)
        ∙ open_file-take aead key header_nonce k src h le)
