-- ===== src/Crypto/Gd01.antt =====
-- internal/crypto/crypto.go: SealFile and OpenFile. A file is its bytes; a source may fail behind
-- its bytes. A result is the file left at dstPath, or an error, where that file is removed.
pub mod Chunks
pub mod RoundTrip
pub mod Truncation
pub mod Sealed
use dero_ghost_drop.Base.{
  ℕ, zero, suc, ◌+◌, ◌-◌, ◌≡◌, Bool, true, false, not, ◌||◌, Option, none, some, [], ◌∷◌, ◌++◌,
  Bytes, codes, bytes_eq, length, take, drop, ltb, ◌==◌, if◌then◌else◌,
}
use dero_ghost_drop.Crypto.Aead.{Aead, overhead}
use dero_ghost_drop.Crypto.Words.{be32, read_be32}
use dero_ghost_drop.Crypto.Nonce.{nonce_size, chunk_nonce}

-- ChunkSize
unfoldable pub chunk_size : ℕ
chunk_size = 1048576

-- Magic
unfoldable pub magic : Bytes
magic = codes "GD01"

-- The writers of SealFile: `written` goes to the file and into cipherHash, `hashed` into plainHash.
pub record Sealing : Type 0 where
  pub written : Bytes
  pub hashed : Bytes
  pub total : ℕ
  pub index : ℕ

pub data OpenError : Type 0 where
  bad_header bad_magic bad_nonce truncated_length bad_length truncated_chunk auth_failed
        unfinished :
      OpenError

pub data Opened : Type 0 where
  opened : Bytes → Opened
  refused : OpenError → Opened

module _ (aead : Aead) (key header_nonce : Bytes) where
  -- The body of SealFile's loop under rn > 0.
  unfoldable pub seal_chunk : Bytes → Sealing → Sealing
  seal_chunk plain s =
      let sealed = Aead.seal aead key (chunk_nonce header_nonce (Sealing.index s)) plain in
      record {
        written = Sealing.written s ++ (be32 (length sealed) ++ sealed);
        hashed = Sealing.hashed s ++ plain;
        total = Sealing.total s + length plain;
        index = suc (Sealing.index s);
      }

  -- SealFile's loop: io.ReadFull takes a chunk, or all there is before the end or the failure.
  unfoldable pub seal_loop : ℕ → Bytes → Bool → Sealing → Option Sealing
  seal_loop zero src fails s = none
  seal_loop (suc fuel) src fails s =
      let plain = take chunk_size src in
      let t = if ltb 0 (length plain) then seal_chunk plain s else s in
      let rest = seal_loop fuel (drop chunk_size src) fails t in
      if ltb (length plain) chunk_size then (if fails then none else some t) else rest

  -- SealFile from the header on: what it has written, hashed and counted.
  unfoldable pub seal_file : Bytes → Bool → Option Sealing
  seal_file src fails =
      seal_loop (suc (length src)) src fails
        (record { written = magic ++ header_nonce; hashed = []; total = 0; index = 0 })

-- The outcome of aead.Open.
unfoldable pub open_sealed : Option Bytes → (Bytes → Opened) → Opened
open_sealed none next = refused auth_failed
open_sealed (some plain) next = next plain

module _ (aead : Aead) (key : Bytes) where
  -- The body of OpenFile's loop from the length of a chunk on; `next` is the rest of the loop.
  unfoldable pub open_chunk : Bytes → ℕ → Option (ℕ × Bytes) → (Bytes → Bytes → Opened) → Opened
  open_chunk header_nonce index none next = refused truncated_length
  open_chunk header_nonce index (some (slen, body)) next =
      let nonce = chunk_nonce header_nonce index in
      if ltb slen overhead || ltb (chunk_size + overhead) slen
      then refused bad_length
      else if ltb (length body) slen
      then refused truncated_chunk
      else open_sealed (Aead.unseal aead key nonce (take slen body)) (next (drop slen body))

  -- OpenFile's loop: `out` is written, `src` is left to read.
  unfoldable pub open_loop : ℕ → Bytes → Bytes → ℕ → Bytes → Opened
  open_loop zero header_nonce src index out = refused unfinished
  open_loop (suc fuel) header_nonce [] index out = opened out
  open_loop (suc fuel) header_nonce (b ∷ src) index out =
      open_chunk header_nonce index (read_be32 (b ∷ src))
        (λ rest plain. open_loop fuel header_nonce rest (suc index) (out ++ plain))

  -- OpenFile: the magic, the nonce of the header and the chunks.
  unfoldable pub open_file : Bytes → Opened
  open_file src =
      let body = drop 4 src in
      if ltb (length src) 4
      then refused bad_header
      else if not (bytes_eq (take 4 src) magic)
      then refused bad_magic
      else if ltb (length body) nonce_size
      then refused bad_nonce
      else open_loop (suc (length body)) (take nonce_size body) (drop nonce_size body) 0 []
