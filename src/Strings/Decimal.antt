-- ===== src/Strings/Decimal.antt =====
-- strconv.FormatInt(n, 10) and strconv.ParseInt(s, 10, 64).
use dero_ghost_drop.Base.{
  ℕ, zero, suc, ◌+◌, ◌-◌, ◌*◌, ◌/◌, ◌%◌, ◌^◌, ◌<◌, ◌≡◌, refl, Bool, true, Option, none, some, [],
  ◌∷◌, arith, Bytes, ◌==◌, ltb, leb, ◌&&◌, if◌then◌else◌, length,
}
use dero_ghost_drop.Base.Int.{ℤ, pos, negsuc}

-- The digits of `n` before `acc`; `n + 1` is enough fuel, as n / 10 < n.
digits_onto : ℕ → ℕ → Bytes → Bytes
digits_onto zero n acc = acc
digits_onto (suc fuel) n acc =
    let rest = digits_onto fuel (n / 10) ((b'0' + n % 10) ∷ acc) in
    if ltb n 10 then (b'0' + n) ∷ acc else rest

unfoldable pub format_nat : ℕ → Bytes
unfolding digits_onto
format_nat n = digits_onto (suc n) n []

unfoldable pub format_int : ℤ → Bytes
format_int (pos n) = format_nat n
format_int (negsuc n) = b'-' ∷ format_nat (suc n)

abbrev pub is_digit : ℕ → Bool
is_digit c = leb b'0' c && leb c b'9'

-- Digits after a value; `none` at the first byte that is no digit.
unfoldable pub parse_from : ℕ → Bytes → Option ℕ
parse_from v [] = some v
parse_from v (c ∷ cs) = if is_digit c then parse_from (v * 10 + (c - b'0')) cs else none

-- The digits behind the sign: at least one, and in range.
unfoldable pub parse_unsigned : ℕ → Bytes → Option ℕ
unfolding parse_from
parse_unsigned limit [] = none
parse_unsigned limit (c ∷ cs) = elim (parse_from 0 (c ∷ cs)) [
  | none ↦ none
  | some n ↦ if leb n limit then some n else none
]

abbrev as_neg : ℕ → ℤ
as_neg zero = pos 0
as_neg (suc n) = negsuc n

-- `none` stands for both errors, bad syntax and out of range.
unfoldable pub parse_int : Bytes → Option ℤ
unfolding parse_unsigned
parse_int [] = none
parse_int (c ∷ cs) =
    if c == b'-'
    then elim (parse_unsigned (2 ^ 63) cs) [ none ↦ none | some n ↦ some (as_neg n) ]
    else if c == b'+'
    then elim (parse_unsigned (2 ^ 63 - 1) cs) [ none ↦ none | some n ↦ some (pos n) ]
    else elim (parse_unsigned (2 ^ 63 - 1) (c ∷ cs)) [ none ↦ none | some n ↦ some (pos n) ]

abbrev pub AllDigits : Bytes → Type 0
AllDigits [] = Unit
AllDigits (c ∷ cs) = (is_digit c ≡ true) × AllDigits cs

digits_onto-AllDigits :
    (fuel n : ℕ) (acc : Bytes) → AllDigits acc → AllDigits (digits_onto fuel n acc)
unfolding digits_onto
digits_onto-AllDigits zero n acc h = h
digits_onto-AllDigits (suc fuel) n acc h =
    ground (arith, digits_onto-AllDigits fuel (n / 10) ((b'0' + n % 10) ∷ acc))

pub format_nat-AllDigits : (n : ℕ) → AllDigits (format_nat n)
unfolding format_nat
format_nat-AllDigits n = digits_onto-AllDigits (suc n) n [] tt

length-digits_onto :
    (fuel n : ℕ) (acc : Bytes) → n < fuel → length acc < length (digits_onto fuel n acc)
unfolding digits_onto
length-digits_onto zero n acc h = absurd (omega arith)
length-digits_onto (suc fuel) n acc h =
    ground (arith, length-digits_onto fuel (n / 10) ((b'0' + n % 10) ∷ acc))

pub format_nat-cons : (n : ℕ) → (c : ℕ) × (cs : Bytes) × (format_nat n ≡ c ∷ cs)
unfolding format_nat
format_nat-cons n = go (format_nat n) refl (length-digits_onto (suc n) n [] (omega arith))
  where
    go :
        (s : Bytes)
        → format_nat n ≡ s
        → 0 < length s
        → (c : ℕ) × (cs : Bytes) × (format_nat n ≡ c ∷ cs)
    go [] e h = absurd (omega arith)
    go (c ∷ cs) e h = (c, cs, e)

parse_from-digits_onto :
    (fuel n : ℕ) (acc : Bytes) → n < fuel → parse_from 0 (digits_onto fuel n acc) ≡ parse_from n acc
unfolding digits_onto parse_from
parse_from-digits_onto zero n acc h = absurd (omega arith)
parse_from-digits_onto (suc fuel) n acc h =
    ground (arith, parse_from-digits_onto fuel (n / 10) ((b'0' + n % 10) ∷ acc))

pub parse_from-format_nat : (n : ℕ) → parse_from 0 (format_nat n) ≡ some n
unfolding format_nat parse_from
parse_from-format_nat n = parse_from-digits_onto (suc n) n [] (omega arith)

parse_int_digits :
    (c : ℕ) (cs : Bytes) (n : ℕ)
    → is_digit c ≡ true
    → parse_from 0 (c ∷ cs) ≡ some n
    → n < 2 ^ 63
    → parse_int (c ∷ cs) ≡ some (pos n)
unfolding parse_int parse_from
parse_int_digits c cs n hc hp hn = ground arith

-- What FormatInt writes of an int64 that is not negative, ParseInt reads back.
pub parse_int-format_nat : (n : ℕ) → n < 2 ^ 63 → parse_int (format_nat n) ≡ some (pos n)
parse_int-format_nat n h =
    let (c, cs, e) = format_nat-cons n in
    rw e (
      parse_int_digits c cs n (rw e at (format_nat-AllDigits n)).0
        (rw e at (parse_from-format_nat n)) h)
