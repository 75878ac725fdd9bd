-- ===== src/Transport/Backoff.antt =====
-- Backoff of internal/transport/transport.go. Durations are int64 nanoseconds.
use Prim.Native.Nat.{zero, suc, min}
use native.Mathlib.Nat.{pow-suc}
use dero_ghost_drop.Base.{
  ℕ, ◌+◌, ◌-◌, ◌*◌, ◌/◌, ◌%◌, ◌^◌, ◌≤◌, ◌<◌, ◌≡◌, arith, ltb, leb, ◌==◌, ◌||◌, if◌then◌else◌,
}
use dero_ghost_drop.Base.Int.{ℤ, pos, negsuc}

abbrev pub max_delay : ℕ
max_delay = 30_000_000_000

abbrev pub default_base : ℕ
default_base = 200_000_000

-- `base <= 0` selects the default.
base_or_default : ℤ → ℕ
base_or_default (pos n) = if n == 0 then default_base else n
base_or_default (negsuc n) = default_base

-- The attempt, clamped to 0..10.
clamp_attempt : ℤ → ℕ
clamp_attempt (pos n) = if ltb 10 n then 10 else n
clamp_attempt (negsuc n) = 0

-- base << attempt as an int64, and the cap; a result that is not positive is capped too.
capped : ℕ → ℕ
capped shifted =
    let word = shifted % 2 ^ 64 in
    if leb (2 ^ 63) word || ltb max_delay word || word == 0 then max_delay else word

-- `jitter` is what rand.Int64N(half+1) returns.
pub backoff_range : ℤ → ℤ → ℕ
backoff_range attempt base = capped (base_or_default base * 2 ^ clamp_attempt attempt)

pub backoff : ℤ → ℤ → ℕ → ℕ
backoff attempt base jitter = backoff_range attempt base / 2 + jitter

backoff_range_bounds :
    (attempt base : ℤ) → (0 < backoff_range attempt base) × (backoff_range attempt base ≤ max_delay)
unfolding backoff_range capped base_or_default clamp_attempt
backoff_range_bounds attempt base = ground arith

-- Whatever the attempt and the base, the delay is at most 30 s, at most the range that it is drawn
-- from, and at least half of it, rounded down.
pub backoff-le_max :
    (attempt base : ℤ) (jitter : ℕ)
    → jitter < backoff_range attempt base / 2 + 1
    → (backoff attempt base jitter ≤ max_delay)
      × (backoff attempt base jitter ≤ backoff_range attempt base)
      × (backoff_range attempt base ≤ 2 * backoff attempt base jitter + 1)
unfolding backoff
backoff-le_max attempt base jitter h = omega (arith, backoff_range_bounds attempt base)

pow_bounds : (d k : ℕ) → k + d ≡ 10 → (0 < 2 ^ k) × (2 ^ k ≤ 2 ^ 10)
pow_bounds zero k e = let e' : k ≡ 10 = omega arith in rw e' (omega arith)
pow_bounds (suc d) k e = omega (arith, pow_bounds d (suc k) (omega arith), pow-suc 2 k)

capped_exact : (n : ℕ) → 0 < n → n < 2 ^ 63 → capped n ≡ min max_delay n
unfolding capped
capped_exact n h k = ground arith

shift_bounds : (b p : ℕ) → 0 < b → b ≤ 2 ^ 52 → 0 < p → p ≤ 2 ^ 10 → (0 < b * p) × (b * p < 2 ^ 63)
shift_bounds b p h k m n = grind arith

clamp_attempt-eq-min : (n : ℕ) → clamp_attempt (pos n) ≡ min 10 n
unfolding clamp_attempt
clamp_attempt-eq-min n = ground arith

base_of_pos : (n : ℕ) → 0 < n → base_or_default (pos n) ≡ n
unfolding base_or_default
base_of_pos n h = ground arith

-- From a base of at most 2 ^ 52 ns the shift does not wrap: the range is base * 2 ^ attempt, with
-- the attempt at most 10, or the cap where that is less.
pub backoff_range_exact :
    (attempt base : ℕ)
    → 0 < base
    → base ≤ 2 ^ 52
    → backoff_range (pos attempt) (pos base) ≡ min max_delay (base * 2 ^ min 10 attempt)
unfolding backoff_range
backoff_range_exact attempt base h k =
    let (p, q) = pow_bounds (10 - min 10 attempt) (min 10 attempt) (omega arith) in
    let (a, b) = shift_bounds base (2 ^ min 10 attempt) h k p q in
    rw (base_of_pos base h, clamp_attempt-eq-min attempt)
      (capped_exact (base * 2 ^ min 10 attempt) a b)
