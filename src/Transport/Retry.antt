-- ===== src/Transport/Retry.antt =====
-- Retry of internal/transport/transport.go. What happens outside the loop in round i is an
-- argument: whether the context has ended before the call, what the call of fn returns, and whether
-- the context ends during the wait.
pub mod Laws
use dero_ghost_drop.Base.{
  ℕ, zero, suc, ◌+◌, ◌-◌, ◌≤◌, ◌<◌, ◌≡◌, ◌⊎◌, refl, Bool, true, false, Option, none, some, arith,
  ltb, ◌==◌, if◌then◌else◌,
}

-- An error is a number; `none` is nil.
pub record Round : Type 0 where
  pub ctx_before : Option ℕ
  pub fn_result : Option ℕ
  pub ctx_wait : Option ℕ

-- What Retry returns, and how often it called fn.
pub record Outcome : Type 0 where
  pub error : Option ℕ
  pub calls : ℕ

-- One round, and then the rest of the loop; `last` is i == attempts-1.
round : Round → Bool → ℕ → Outcome → Outcome
round r last i rest = elim r.ctx_before [
  | some e ↦ record { error = some e; calls = i }
  | none ↦ elim r.fn_result [
    | none ↦ record { error = none; calls = i + 1 }
    | some e ↦
        if last
        then record { error = some e; calls = i + 1 }
        else elim r.ctx_wait [ some c ↦ record { error = some c; calls = i + 1 } | none ↦ rest ]
  ]
]

-- The rounds from `i` on, `left` of them still to run; `err` is the last error.
loop : ℕ → ℕ → Option ℕ → (ℕ → Round) → Outcome
unfolding round
loop zero i err env = record { error = err; calls = i }
loop (suc left) i err env =
    let rest = loop left (i + 1) (env i).fn_result env in round (env i) (left == 0) i rest

pub retry : ℕ → (ℕ → Round) → Outcome
unfolding loop
retry attempts env = loop (if ltb attempts 1 then 1 else attempts) 0 none env
