-- ===== src/Transport/Retry/Laws.antt =====
-- What Retry promises: when it stops, with which error, after how many calls.
use dero_ghost_drop.Base.{
  ℕ, zero, suc, ◌+◌, ◌≤◌, ◌<◌, ◌≡◌, ◌≢◌, ap, Option, none, arith, ltb, ◌==◌, if◌then◌else◌, inl,
  inr, Bool-cases,
}
use dero_ghost_drop.Transport.Retry.{Round, loop, retry}

-- No cancellation before or after the call.
abbrev pub Quiet : Round → Type 0
Quiet r = (r.ctx_before ≡ none) × (r.ctx_wait ≡ none)

loop_calls_le :
    (left i : ℕ) (err : Option ℕ) (env : ℕ → Round) → (loop left i err env).calls ≤ i + left
unfolding loop
loop_calls_le zero i err env = omega arith
loop_calls_le (suc left) i err env =
    ground (arith, loop_calls_le left (i + 1) (env i).fn_result env)

-- Retry calls fn at most `attempts` times, and at most once where attempts < 1.
pub retry_calls_le :
    (attempts : ℕ) (env : ℕ → Round)
    → (retry attempts env).calls ≤ (if ltb attempts 1 then 1 else attempts)
unfolding retry
retry_calls_le attempts env =
    omega (arith, loop_calls_le (if ltb attempts 1 then 1 else attempts) 0 none env)

loop_success :
    (left n i : ℕ) (err : Option ℕ) (env : ℕ → Round)
    → i ≤ n
    → n < i + left
    → ((j : ℕ) → i ≤ j → j < n → Quiet (env j) × ((env j).fn_result ≢ none))
    → (env n).ctx_before ≡ none
    → (env n).fn_result ≡ none
    → loop left i err env ≡ record { error = none; calls = n + 1 }
unfolding loop
loop_success zero n i err env ge lt h c s = absurd (omega arith)
loop_success (suc left) n i err env ge lt h c s = elim (Bool-cases (i == n)) [
  | inl e ↦
      let p : i ≡ n = ground arith in
      ground (arith, ap (λ (k : ℕ). (env k).fn_result) p, ap (λ (k : ℕ). (env k).ctx_before) p)
  | inr e ↦ ground (
    arith,
    h i,
    loop_success left n (i + 1) (env i).fn_result env (ground arith) (omega arith)
        (λ j a b. h j (omega arith) b) c s,
  )
]

loop_exhausted :
    (left n i : ℕ) (err : Option ℕ) (env : ℕ → Round)
    → i + left ≡ n
    → ((j : ℕ) → i ≤ j → j ≤ n → Quiet (env j) × ((env j).fn_result ≢ none))
    → loop (suc left) i err env ≡ record { error = (env n).fn_result; calls = n + 1 }
unfolding loop
loop_exhausted zero n i err env e h =
    let p : i ≡ n = omega arith in ground (arith, h i, ap (λ (k : ℕ). (env k).fn_result) p)
loop_exhausted (suc left) n i err env e h = ground (
  arith,
  h i,
  loop_exhausted left n (i + 1) (env i).fn_result env (omega arith) (λ j a b. h j (omega arith) b),
)

-- The first call that succeeds ends the loop with no error: if the context does not end before, the
-- calls up to call `n` fail and call `n` succeeds, Retry returns nil after n + 1 calls.
pub retry_first_success :
    (attempts n : ℕ) (env : ℕ → Round)
    → n < attempts
    → ((j : ℕ) → j < n → Quiet (env j) × ((env j).fn_result ≢ none))
    → (env n).ctx_before ≡ none
    → (env n).fn_result ≡ none
    → retry attempts env ≡ record { error = none; calls = n + 1 }
unfolding retry
retry_first_success attempts n env lt h c s =
    loop_success (if ltb attempts 1 then 1 else attempts) n 0 none env (omega arith) (ground arith)
      (λ j _ b. h j b) c s

-- If the context does not end and every call fails, Retry returns the error of the last of exactly
-- `attempts` calls.
pub retry_exhausted :
    (n : ℕ) (env : ℕ → Round)
    → ((j : ℕ) → j ≤ n → Quiet (env j) × ((env j).fn_result ≢ none))
    → retry (suc n) env ≡ record { error = (env n).fn_result; calls = suc n }
unfolding retry
retry_exhausted n env h =
    ground (arith, loop_exhausted n n 0 none env (omega arith) (λ j _ b. h j b))
