-- ===== src/Transport/Copy/Laws.antt =====
-- A copy that reports no error is complete.
use mathlib.Core.Path.{subst}
use mathlib.Core.List.{append_assoc, append-nil}
use dero_ghost_drop.Base.{
  ◌+◌, ◌≡◌, ◌∙◌, ◌⊎◌, inl, inr, sym, ap, Option, none, some, List, [], ◌∷◌, ◌++◌, arith, Bytes,
  length, length-append, take_of_length-le, eq_nil_of_length,
}
use dero_ghost_drop.Transport.Copy.{
  End, eof, read_error, Round, Progress, start, write_chunk, after_read, copy_with_progress,
}

-- The bytes that the reader delivers up to the end of its stream.
abbrev pub delivered : List Round → Bytes
delivered [] = []
delivered (r ∷ rs) = r.chunk ++ elim r.end [ none ↦ delivered rs | some e ↦ [] ]

-- The copy up to a state `p` and then the end of a copy that starts there.
abbrev Completes : Bytes → Progress → Progress → Type 0
Completes rest p q = (q.received ≡ p.received ++ rest) × (q.written ≡ p.written + length rest)

Completes-nil : (p : Progress) → Completes [] p p
Completes-nil p = (sym (append-nil p.received), omega arith)

after_read-Completes :
    (end : Option End) (rs : List Round) (p q : Progress)
    → ((copy_with_progress rs p ≡ some (none, q)) → Completes (delivered rs) p q)
    → after_read end p (copy_with_progress rs p) ≡ some (none, q)
    → Completes (elim end [ none ↦ delivered rs | some e ↦ [] ]) p q
unfolding after_read
after_read-Completes none rs p q ih h = ih h
after_read-Completes (some eof) rs p q ih h = ground (arith, Completes-nil p)
after_read-Completes (some read_error) rs p q ih h = ground arith

write-Completes :
    (r : Round) (rest : Bytes) (p q : Progress)
    → r.wrote ≡ length r.chunk
    → Completes rest (write_chunk r p) q
    → Completes (r.chunk ++ rest) p q
unfolding write_chunk
write-Completes r rest p q w (a, b) = (
  a
      ∙ (ap (λ c. (p.received ++ c) ++ rest) (take_of_length-le r.wrote r.chunk (omega arith))
          ∙ append_assoc p.received r.chunk rest),
  omega (arith, length-append r.chunk rest),
)

-- A round of a copy without an error either read nothing or wrote all that it read.
copy_cases :
    (r : Round) (rs : List Round) (p q : Progress)
    → copy_with_progress (r ∷ rs) p ≡ some (none, q)
    → ((length r.chunk ≡ 0) × (after_read r.end p (copy_with_progress rs p) ≡ some (none, q)))
      ⊎ ((r.wrote ≡ length r.chunk)
          × (after_read r.end (write_chunk r p) (copy_with_progress rs (write_chunk r p))
              ≡ some (none, q)))
unfolding copy_with_progress
copy_cases r rs p q h = ground arith

copy-Completes :
    (rs : List Round) (p q : Progress)
    → copy_with_progress rs p ≡ some (none, q)
    → Completes (delivered rs) p q
unfolding copy_with_progress
copy-Completes [] p q h = ground arith
copy-Completes (r ∷ rs) p q h = elim (copy_cases r rs p q h) [
  | inl (z, k) ↦
      subst (λ c. Completes (c ++ elim r.end [ none ↦ delivered rs | some e ↦ [] ]) p q)
        (sym (eq_nil_of_length r.chunk z))
        (after_read-Completes r.end rs p q (copy-Completes rs p q) k)
  | inr (w, k) ↦
      write-Completes r (elim r.end [ none ↦ delivered rs | some e ↦ [] ]) p q w
        (after_read-Completes r.end rs (write_chunk r p) q (copy-Completes rs (write_chunk r p) q)
          k)
]

-- CopyWithProgress reports success only for a complete copy: if it returns no error, dst has received
-- exactly the bytes that src delivered up to its end, and the number returned is their number.
pub copy_complete :
    (rs : List Round) (q : Progress)
    → copy_with_progress rs start ≡ some (none, q)
    → (q.received ≡ delivered rs) × (q.written ≡ length (delivered rs))
copy_complete rs q h = let (a, b) = copy-Completes rs start q h in (a, omega (arith, b))
