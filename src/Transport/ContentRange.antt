-- ===== src/Transport/ContentRange.antt =====
-- The resume headers of internal/transport/transport.go. A position is an int64 that has been
-- found not to be negative, so it is a number here.
pub mod RoundTrip
pub mod Bounds
use dero_ghost_drop.Base.{
  ℕ, zero, suc, ◌-◌, Bool, true, false, Option, none, some, List, [], ◌∷◌, ◌++◌, Bytes, codes, ◌==◌,
  ltb, leb, ◌&&◌, ◌||◌, not, if◌then◌else◌, ◌>>=◌, ◌>>◌, guard,
}
use dero_ghost_drop.Base.Int.{ℤ, pos, negsuc}
use dero_ghost_drop.Strings.{after_prefix, cut_at, trim_space, format_int, parse_int}

pub record ContentRange : Type 0 where
  pub start : ℕ
  pub end : ℕ
  pub total : ℕ

-- FormatContentRange
unfoldable pub format_content_range : ℤ → ℤ → ℤ → Bytes
format_content_range off end total =
    codes "bytes " ++ (format_int off ++ b'-' ∷ (format_int end ++ b'/' ∷ format_int total))

-- The test behind the three calls of ParseInt.
check_range : ℤ → ℤ → ℤ → Option ContentRange
check_range (pos start) (pos end) (pos total) =
    if leb start end && ltb 0 total && ltb end total
    then some (record { start = start; end = end; total = total })
    else none
check_range _ _ _ = none

-- ParseContentRange
unfoldable pub parse_content_range : Bytes → Option ContentRange
unfolding check_range
parse_content_range v = do
  rest ← after_prefix (codes "bytes ") (trim_space v)
  (range, size) ← cut_at b'/' rest
  (first, last) ← cut_at b'-' range
  start ← parse_int first
  end ← parse_int last
  total ← parse_int size
  check_range start end total

-- strings.Contains(s, ",")
unfoldable pub has_byte : ℕ → Bytes → Bool
has_byte c [] = false
has_byte c (x ∷ xs) = x == c || has_byte c xs

-- A number that ParseInt reads and that is not negative.
parse_position : Bytes → Option ℕ
parse_position s = elim (parse_int s) [ some (pos n) ↦ some n | _ ↦ none ]

-- The last byte: size - 1, or an earlier one that the header names.
range_end : Bytes → ℕ → ℕ → Option ℕ
unfolding parse_position
range_end [] start size = some (size - 1)
range_end (c ∷ cs) start size = do
  e ← parse_position (c ∷ cs)
  guard (leb start e)
  some (if ltb e (size - 1) then e else size - 1)

is_empty : Bytes → Bool
is_empty [] = true
is_empty (c ∷ cs) = false

-- ParseRange
unfoldable pub parse_range : Bytes → ℕ → Option ContentRange
unfolding parse_position range_end is_empty
parse_range v size = do
  rest ← after_prefix (codes "bytes=") (trim_space v)
  guard (not (has_byte b',' rest))
  (first, last) ← cut_at b'-' rest
  guard (not (is_empty first))
  start ← parse_position first
  end ← range_end last start size
  guard (ltb start size)
  some (record { start = start; end = end; total = size })

-- The header that FetchRange sends for an offset above 0.
unfoldable pub fetch_range_header : ℕ → Bytes
fetch_range_header off = codes "bytes=" ++ (format_int (pos off) ++ b'-' ∷ [])
