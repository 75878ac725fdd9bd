-- ===== src/Transport/Copy.antt =====
-- CopyWithProgress, HashingReader and HashFile of internal/transport/transport.go. What the reads
-- and the writes return, one pair for each round of the loop, is an argument.
pub mod Laws
pub mod Hash
use dero_ghost_drop.Base.{
  ℕ, ◌+◌, Bool, true, false, not, Option, none, some, List, [], ◌∷◌, ◌++◌, Bytes, ltb, ◌==◌, length,
  take, if◌then◌else◌,
}

-- How a Read ends the stream: io.EOF or another error.
pub data End : Type 0 where
  eof read_error : End

pub record Round : Type 0 where
  pub chunk : Bytes
  pub end : Option End
  pub wrote : ℕ
  pub write_fails : Bool

pub data CopyError : Type 0 where
  write_failed short_write read_failed : CopyError

-- What dst has received, what fn was called with, and `written`.
pub record Progress : Type 0 where
  pub received : Bytes
  pub calls : List ℕ
  pub written : ℕ

abbrev pub start : Progress
start = record { received = []; calls = []; written = 0 }

-- The Write of a round with nr > 0, and the call of fn behind it.
unfoldable pub write_chunk : Round → Progress → Progress
write_chunk r p =
    let n = p.written + r.wrote in
    record { received = p.received ++ take r.wrote r.chunk; calls = p.calls ++ n ∷ []; written = n }

-- The tests on er behind a write, with the rounds that follow.
unfoldable pub after_read :
    Option End
    → Progress
    → Option (Option CopyError × Progress)
    → Option (Option CopyError × Progress)
after_read none p rest = rest
after_read (some eof) p rest = some (none, p)
after_read (some read_error) p rest = some (some read_failed, p)

-- The loop; `none` where the reader has not ended within the rounds given.
unfoldable pub copy_with_progress : List Round → Progress → Option (Option CopyError × Progress)
copy_with_progress [] p = none
copy_with_progress (r ∷ rs) p =
    let idle = copy_with_progress rs p in
    let more = copy_with_progress rs (write_chunk r p) in
    if ltb 0 (length r.chunk)
    then (if r.write_fails
        then some (some write_failed, write_chunk r p)
        else if not (r.wrote == length r.chunk)
        then some (some short_write, write_chunk r p)
        else after_read r.end (write_chunk r p) more)
    else after_read r.end p idle

-- HashingReader: the bytes that went into the hash, and `n`.
pub record Hashing : Type 0 where
  pub hashed : Bytes
  pub n : ℕ

-- HashingReader.Read
unfoldable pub hashing_read : Bytes → Hashing → Hashing
hashing_read chunk h =
    if ltb 0 (length chunk)
    then record { hashed = h.hashed ++ chunk; n = h.n + length chunk }
    else h

-- io.Discard takes every byte.
abbrev pub discard : Bytes × Option End → Round
discard (chunk, end) = record {
  chunk = chunk;
  end = end;
  wrote = length chunk;
  write_fails = false;
}

-- The HashingReader behind the reads up to the end of the stream.
unfoldable pub hashing_reads : List (Bytes × Option End) → Hashing → Hashing
hashing_reads [] h = h
hashing_reads ((chunk, none) ∷ rs) h = hashing_reads rs (hashing_read chunk h)
hashing_reads ((chunk, some e) ∷ rs) h = hashing_read chunk h

-- The rounds of a copy to io.Discard.
abbrev pub rounds : List (Bytes × Option End) → List Round
rounds [] = []
rounds (r ∷ rs) = discard r ∷ rounds rs

-- The end of HashFile: the digest and the size, or the error of the copy.
unfoldable pub hash_result :
    (Bytes → Bytes) → Bytes → Option (Option CopyError × Progress) → Option (Option (Bytes × ℕ))
hash_result sha256_hex hashed none = none
hash_result sha256_hex hashed (some (some e, p)) = some none
hash_result sha256_hex hashed (some (none, p)) = some (some (sha256_hex hashed, p.written))

-- HashFile, of a file that opens
unfoldable pub hash_file : (Bytes → Bytes) → List (Bytes × Option End) → Option (Option (Bytes × ℕ))
hash_file sha256_hex reads =
    hash_result sha256_hex (hashing_reads reads (record { hashed = []; n = 0 })).hashed
      (copy_with_progress (rounds reads) start)
