-- ===== src/Transport/ContentRange/RoundTrip.antt =====
-- Headers that the program writes are read back.
use mathlib.Core.List.{reverse, reverse-append, reverse-cons, reverse-reverse, append_assoc}
use dero_ghost_drop.Base.{
  ℕ, ◌-◌, ◌^◌, ◌≤◌, ◌<◌, ◌≡◌, refl, sym, ap, ◌∙◌, true, false, some, [], ◌∷◌, ◌++◌, arith, Bytes,
  codes,
}
use dero_ghost_drop.Base.Int.{pos}
use dero_ghost_drop.Strings.{
  Avoids, cut_at, cut_at-append, after_prefix-append, trim_space, trim_space_edges, is_edge,
  is_digit, AllDigits, format_int, format_nat, format_nat-AllDigits, format_nat-cons,
  parse_int-format_nat,
}
use dero_ghost_drop.Transport.ContentRange.{
  format_content_range, parse_content_range, parse_range, fetch_range_header, has_byte, is_empty,
  parse_position,
}

AllDigits-append : (xs ys : Bytes) → AllDigits xs → AllDigits ys → AllDigits (xs ++ ys)
AllDigits-append [] ys h k = k
AllDigits-append (x ∷ xs) ys h k = (h.0, AllDigits-append xs ys h.1 k)

AllDigits-reverse : (xs : Bytes) → AllDigits xs → AllDigits (reverse xs)
AllDigits-reverse [] h = tt
AllDigits-reverse (x ∷ xs) h =
    rw (reverse-cons x xs)
      (AllDigits-append (reverse xs) (x ∷ []) (AllDigits-reverse xs h.1) (h.0, tt))

Avoids-digits : (c : ℕ) (xs : Bytes) → is_digit c ≡ false → AllDigits xs → Avoids c xs
Avoids-digits c [] h k = tt
Avoids-digits c (x ∷ xs) h k = (λ e. ground arith, Avoids-digits c xs h k.1)

Avoids-append : (c : ℕ) (xs ys : Bytes) → Avoids c xs → Avoids c ys → Avoids c (xs ++ ys)
Avoids-append c [] ys h k = k
Avoids-append c (x ∷ xs) ys h k = (h.0, Avoids-append c xs ys h.1 k)

is_edge_digit : (c : ℕ) → is_digit c ≡ true → is_edge c ≡ true
is_edge_digit c h = ground arith

-- The last byte of a string is `z`.
abbrev EndsIn : ℕ → Bytes → Type 0
EndsIn z s = (t : Bytes) × (reverse s ≡ z ∷ t)

EndsIn-append : (z : ℕ) (xs ys : Bytes) → EndsIn z ys → EndsIn z (xs ++ ys)
EndsIn-append z xs ys (t, e) = (t ++ reverse xs, reverse-append xs ys ∙ ap (λ u. u ++ reverse xs) e)

last_digit :
    (s : Bytes) (c : ℕ) (cs : Bytes)
    → s ≡ c ∷ cs
    → AllDigits (reverse s)
    → (z : ℕ) × EndsIn z s × (is_edge z ≡ true)
last_digit s c cs e d = go (reverse s) refl d
  where
    go : (r : Bytes) → reverse s ≡ r → AllDigits r → (z : ℕ) × EndsIn z s × (is_edge z ≡ true)
    go [] q h = absurd (cc (e, sym (reverse-reverse s) ∙ ap reverse q))
    go (z ∷ t) q h = (z, (t, q), is_edge_digit z h.0)

-- A number is written with a digit at its end.
format_nat-EndsIn : (n : ℕ) → (z : ℕ) × EndsIn z (format_nat n) × (is_edge z ≡ true)
format_nat-EndsIn n =
    let (c, cs, e) = format_nat-cons n in
    last_digit (format_nat n) c cs e (AllDigits-reverse (format_nat n) (format_nat-AllDigits n))

-- The body of a header: what stands behind "bytes ".
abbrev range_text : ℕ → ℕ → ℕ → Bytes
range_text off end total = format_nat off ++ b'-' ∷ (format_nat end ++ b'/' ∷ format_nat total)

trim_space_header :
    (off end total : ℕ)
    → trim_space (codes "bytes " ++ range_text off end total)
      ≡ codes "bytes " ++ range_text off end total
trim_space_header off end total =
    let (z, (t, e), hz) = format_nat-EndsIn total in
    trim_space_edges (codes "bytes " ++ range_text off end total) b'b' z _ _ refl
      (EndsIn-append z (codes "bytes ") (range_text off end total) (
        EndsIn-append z (format_nat off) (b'-' ∷ (format_nat end ++ b'/' ∷ format_nat total)) (
          EndsIn-append z (b'-' ∷ []) (format_nat end ++ b'/' ∷ format_nat total) (
            EndsIn-append z (format_nat end) (b'/' ∷ format_nat total)
              (EndsIn-append z (b'/' ∷ []) (format_nat total) (t, e)))))).1
      refl hz

slash_free : (off end : ℕ) → Avoids b'/' (format_nat off ++ b'-' ∷ format_nat end)
slash_free off end =
    Avoids-append b'/' (format_nat off) (b'-' ∷ format_nat end)
      (Avoids-digits b'/' (format_nat off) refl (format_nat-AllDigits off))
      (omega arith, Avoids-digits b'/' (format_nat end) refl (format_nat-AllDigits end))

cut_slash :
    (off end total : ℕ)
    → cut_at b'/' (range_text off end total)
      ≡ some (format_nat off ++ b'-' ∷ format_nat end, format_nat total)
cut_slash off end total =
    rw (← append_assoc (format_nat off) (b'-' ∷ format_nat end) (b'/' ∷ format_nat total)) (
      cut_at-append b'/' (format_nat off ++ b'-' ∷ format_nat end) (format_nat total)
        (slash_free off end))

cut_dash :
    (off : ℕ) (r : Bytes) → cut_at b'-' (format_nat off ++ b'-' ∷ r) ≡ some (format_nat off, r)
cut_dash off r =
    cut_at-append b'-' (format_nat off) r
      (Avoids-digits b'-' (format_nat off) refl (format_nat-AllDigits off))

-- What FormatContentRange writes for first ≤ last < total, in int64, ParseContentRange reads back.
pub parse-format_content_range :
    (off end total : ℕ)
    → off ≤ end
    → end < total
    → total < 2 ^ 63
    → parse_content_range (format_content_range (pos off) (pos end) (pos total))
      ≡ some (record { start = off; end = end; total = total })
unfolding parse_content_range format_content_range format_int
parse-format_content_range off end total h k w =
    rw
      (
        trim_space_header off end total,
        after_prefix-append (codes "bytes ") (range_text off end total),
        cut_slash off end total,
        cut_dash off (format_nat end),
        parse_int-format_nat off (omega arith),
        parse_int-format_nat end (omega arith),
        parse_int-format_nat total w,
      )
      (ground arith)

trim_space_fetch :
    (off : ℕ)
    → trim_space (codes "bytes=" ++ (format_nat off ++ b'-' ∷ []))
      ≡ codes "bytes=" ++ (format_nat off ++ b'-' ∷ [])
trim_space_fetch off =
    trim_space_edges (codes "bytes=" ++ (format_nat off ++ b'-' ∷ [])) b'b' b'-' _ _ refl
      (EndsIn-append b'-' (codes "bytes=") (format_nat off ++ b'-' ∷ [])
        (EndsIn-append b'-' (format_nat off) (b'-' ∷ []) ([], refl))).1
      refl refl

has_byte_of_Avoids : (c : ℕ) (s : Bytes) → Avoids c s → has_byte c s ≡ false
unfolding has_byte
has_byte_of_Avoids c [] h = refl
has_byte_of_Avoids c (x ∷ xs) h = ground (arith, has_byte_of_Avoids c xs h.1)

comma_free : (off : ℕ) → has_byte b',' (format_nat off ++ b'-' ∷ []) ≡ false
comma_free off = has_byte_of_Avoids b',' (format_nat off ++ b'-' ∷ []) (
    Avoids-append b',' (format_nat off) (b'-' ∷ [])
      (Avoids-digits b',' (format_nat off) refl (format_nat-AllDigits off)) (omega arith, tt))

parse_position-format_nat : (n : ℕ) → n < 2 ^ 63 → parse_position (format_nat n) ≡ some n
unfolding parse_position
parse_position-format_nat n h = rw (parse_int-format_nat n h, parse_position)

not_empty : (n : ℕ) → is_empty (format_nat n) ≡ false
unfolding is_empty
not_empty n = let (c, cs, e) = format_nat-cons n in rw e

-- The header that FetchRange sends for an offset below the stored size selects all from there on.
pub parse_range-fetch_range_header :
    (off size : ℕ)
    → off < size
    → size < 2 ^ 63
    → parse_range (fetch_range_header off) size
      ≡ some (record { start = off; end = size - 1; total = size })
unfolding parse_range fetch_range_header format_int
parse_range-fetch_range_header off size h w =
    rw
      (
        trim_space_fetch off,
        after_prefix-append (codes "bytes=") (format_nat off ++ b'-' ∷ []),
        comma_free off,
        cut_dash off [],
        not_empty off,
        parse_position-format_nat off (omega arith),
      )
      (ground arith)
