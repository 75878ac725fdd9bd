-- ===== src/Database/History.antt =====
-- The history table of internal/database/database.go: the order of its ids.
use dero_ghost_drop.Base.{ℕ, suc, ◌≤◌, ◌≡◌, List, [], ◌∷◌, ◌++◌, arith, Bytes}
use dero_ghost_drop.Database.{Event, without}

-- The ids ascend, from `lo` on and below `hi`.
abbrev pub Ascending : ℕ → List Event → ℕ → Type 0
Ascending lo [] hi = lo ≤ hi
Ascending lo (e ∷ es) hi = (lo ≤ e.id) × Ascending (suc e.id) es hi

Ascending-lower :
    (lo low hi : ℕ) (es : List Event) → low ≤ lo → Ascending lo es hi → Ascending low es hi
Ascending-lower lo low hi [] l a = omega arith
Ascending-lower lo low hi (e ∷ es) l a = (omega arith, a.1)

pub Ascending-append :
    (lo hi : ℕ) (es : List Event) (e : Event)
    → e.id ≡ hi
    → Ascending lo es hi
    → Ascending lo (es ++ (e ∷ [])) (suc hi)
Ascending-append lo hi [] e h a = (omega arith, omega arith)
Ascending-append lo hi (x ∷ es) e h a = (a.0, Ascending-append (suc x.id) hi es e h a.1)

pub Ascending-without :
    (id : Bytes) (lo hi : ℕ) (es : List Event)
    → Ascending lo es hi
    → Ascending lo (without id es) hi
unfolding without
Ascending-without id lo hi [] a = a
Ascending-without id lo hi (e ∷ es) a = ground (
  arith,
  Ascending-without id (suc e.id) hi es a.1,
  Ascending-lower (suc e.id) lo hi (without id es),
)
