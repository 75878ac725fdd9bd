-- ===== src/Transport/Copy/Hash.antt =====
-- HashFile of a file that can be read to its end.
use mathlib.Core.List.{append_assoc, append-nil}
use dero_ghost_drop.Base.{
  ℕ, ◌+◌, ◌≡◌, ◌∙◌, refl, sym, ap, Option, none, some, List, [], ◌∷◌, ◌++◌, arith, Bytes, length,
  length-append,
}
use dero_ghost_drop.Transport.Copy.{
  End, eof, Round, Progress, start, write_chunk, after_read, copy_with_progress, Hashing,
  hashing_read, hashing_reads, discard, rounds, hash_file, hash_result,
}

-- The reads of a file in pieces, the last with io.EOF, and their content.
abbrev pub pieces : List Bytes → Bytes → List (Bytes × Option End)
pieces [] last = (last, some eof) ∷ []
pieces (c ∷ cs) last = (c, none) ∷ pieces cs last

abbrev pub joined : List Bytes → Bytes → Bytes
joined [] last = last
joined (c ∷ cs) last = c ++ joined cs last

-- A piece, empty or not, only moves the state on.
read_piece :
    (c : Bytes) (end : Option End) (rs : List Round) (p : Progress)
    → (q : Progress) × (q.written ≡ p.written + length c)
      × (copy_with_progress (discard (c, end) ∷ rs) p ≡ after_read end q (copy_with_progress rs q))
unfolding copy_with_progress write_chunk
read_piece [] end rs p = (p, omega arith, ground arith)
read_piece (x ∷ c) end rs p = (write_chunk (discard (x ∷ c, end)) p, refl, ground arith)

copy_pieces :
    (cs : List Bytes) (last : Bytes) (p : Progress)
    → (q : Progress) × (copy_with_progress (rounds (pieces cs last)) p ≡ some (none, q))
      × (q.written ≡ p.written + length (joined cs last))
unfolding after_read
copy_pieces [] last p = let (q, w, e) = read_piece last (some eof) [] p in (q, e, w)
copy_pieces (c ∷ cs) last p =
    let (q, w, e) = read_piece c none (rounds (pieces cs last)) p in
    let (q', e', w') = copy_pieces cs last q in
    (q', e ∙ e', omega (arith, w, w', length-append c (joined cs last)))

hashing_read-hashed : (c : Bytes) (h : Hashing) → (hashing_read c h).hashed ≡ h.hashed ++ c
unfolding hashing_read
hashing_read-hashed [] h = sym (append-nil h.hashed)
hashing_read-hashed (x ∷ c) h = ground arith

hashed_pieces :
    (cs : List Bytes) (last : Bytes) (h : Hashing)
    → (hashing_reads (pieces cs last) h).hashed ≡ h.hashed ++ joined cs last
unfolding hashing_reads
hashed_pieces [] last h = hashing_read-hashed last h
hashed_pieces (c ∷ cs) last h =
    hashed_pieces cs last (hashing_read c h)
    ∙ (ap (λ x. x ++ joined cs last) (hashing_read-hashed c h)
        ∙ append_assoc h.hashed c (joined cs last))

-- However a file is cut into reads, empty ones included, if the reads go on to io.EOF then HashFile
-- returns the digest of the whole content and its length.
pub hash_file_exact :
    (sha256_hex : Bytes → Bytes) (cs : List Bytes) (last : Bytes)
    → hash_file sha256_hex (pieces cs last)
      ≡ some (some (sha256_hex (joined cs last), length (joined cs last)))
unfolding hash_file hash_result
hash_file_exact sha256_hex cs last =
    let (q, e, w) = copy_pieces cs last start in
    ap
      (λ o.
        hash_result sha256_hex
          (hashing_reads (pieces cs last) (record { hashed = []; n = 0 })).hashed o)
      e
    ∙ (ap (λ b. some (some (sha256_hex b, q.written)))
          (hashed_pieces cs last (record { hashed = []; n = 0 }))
        ∙ ap (λ n. some (some (sha256_hex (joined cs last), n)))
            (w ∙ zero_plus (length (joined cs last))))
  where
    zero_plus : (n : ℕ) → 0 + n ≡ n
    zero_plus n = omega arith
