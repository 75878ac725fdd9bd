-- ===== src/Events/Sublists.antt =====
-- Lists of events that keep the order of another list.
use mathlib.Core.Path.{subst}
use dero_ghost_drop.Base.{◌≡◌, List, [], ◌∷◌, ◌++◌, arith}
use dero_ghost_drop.Events.{Event}

-- Some elements of the second list, in its order.
pub data Sublist : List Event → List Event → Type 0 where
  none_left : Sublist [] []
  skip : (xs : List Event) (y : Event) (ys : List Event) → Sublist xs ys → Sublist xs (y ∷ ys)
  keep : (x : Event) (xs ys : List Event) → Sublist xs ys → Sublist (x ∷ xs) (x ∷ ys)

pub Sublist-later : (xs ys : List Event) (e : Event) → Sublist xs ys → Sublist xs (ys ++ (e ∷ []))
Sublist-later _ _ e none_left = skip [] e [] none_left
Sublist-later _ _ e (skip xs y ys s) = skip xs y (ys ++ (e ∷ [])) (Sublist-later xs ys e s)
Sublist-later _ _ e (keep x xs ys s) = keep x xs (ys ++ (e ∷ [])) (Sublist-later xs ys e s)

pub Sublist-both :
    (xs ys : List Event) (e : Event) → Sublist xs ys → Sublist (xs ++ (e ∷ [])) (ys ++ (e ∷ []))
Sublist-both _ _ e none_left = keep e [] [] none_left
Sublist-both _ _ e (skip xs y ys s) =
    skip (xs ++ (e ∷ [])) y (ys ++ (e ∷ [])) (Sublist-both xs ys e s)
Sublist-both _ _ e (keep x xs ys s) =
    keep x (xs ++ (e ∷ [])) (ys ++ (e ∷ [])) (Sublist-both xs ys e s)

pub Sublist-nil : (ys : List Event) → Sublist [] ys
Sublist-nil [] = none_left
Sublist-nil (y ∷ ys) = skip [] y ys (Sublist-nil ys)

pub Sublist-prefix : (zs ys xs more : List Event) → Sublist zs ys → zs ≡ xs ++ more → Sublist xs ys
Sublist-prefix _ _ [] more none_left h = none_left
Sublist-prefix _ _ (x ∷ xs) more none_left h = absurd (ground arith)
Sublist-prefix _ _ xs more (skip zs y ys s) h = skip xs y ys (Sublist-prefix zs ys xs more s h)
Sublist-prefix _ _ [] more (keep z zs ys s) h = Sublist-nil (z ∷ ys)
Sublist-prefix _ _ (x ∷ xs) more (keep z zs ys s) h =
    let same : z ≡ x = cc in
    let rest : zs ≡ xs ++ more = cc in
    subst (λ a. Sublist (a ∷ xs) (z ∷ ys)) same (keep z xs ys (Sublist-prefix zs ys xs more s rest))
