-- ===== src/Base/Maps.antt =====
-- Go's map[string]V, and a directory of files named by an id: an association list. A key is
-- written at most once, as `Unique` says.
use Prim.Native.Nat.{ℕ, ◌+◌}
use mathlib.Core.Path.{◌≡◌, refl}
use mathlib.Core.Option.{Option, none, some}
use mathlib.Core.List.{List, [], ◌∷◌}
use native.Mathlib.Omega.{arith}
use dero_ghost_drop.Base.Tests.{if◌then◌else◌}
use dero_ghost_drop.Base.Lists.{length}
use dero_ghost_drop.Base.ByteStrings.{Bytes, bytes_eq, bytes_eq_iff, bytes_eq_self}

abbrev pub Map {ℓ} : Type ℓ → Type ℓ
Map V = List (Bytes × V)

module _ {ℓ} {V : Type ℓ} where
  unfoldable pub lookup : Bytes → Map V → Option V
  lookup k [] = none
  lookup k ((j, v) ∷ m) = if bytes_eq j k then some v else lookup k m

  -- m[k] = v
  unfoldable pub insert : Bytes → V → Map V → Map V
  insert k v [] = (k, v) ∷ []
  insert k v ((j, w) ∷ m) = if bytes_eq j k then (j, v) ∷ m else (j, w) ∷ insert k v m

  -- delete(m, k)
  unfoldable pub remove : Bytes → Map V → Map V
  remove k [] = []
  remove k ((j, w) ∷ m) = let rest = remove k m in if bytes_eq j k then rest else (j, w) ∷ rest

  pub lookup-insert :
      (k j : Bytes) (v : V) (m : Map V)
      → lookup j (insert k v m) ≡ (if bytes_eq k j then some v else lookup j m)
  unfolding lookup insert
  lookup-insert k j v [] = refl
  lookup-insert k j v ((i, w) ∷ m) =
      ground (arith, bytes_eq_iff k j, bytes_eq_iff i k, bytes_eq_iff i j, lookup-insert k j v m)

  pub lookup-insert_self : (k : Bytes) (v : V) (m : Map V) → lookup k (insert k v m) ≡ some v
  lookup-insert_self k v m = rw (lookup-insert k k v m, bytes_eq_self k)

  pub lookup-remove :
      (k j : Bytes) (m : Map V)
      → lookup j (remove k m) ≡ (if bytes_eq k j then none else lookup j m)
  unfolding lookup remove
  lookup-remove k j [] = ground arith
  lookup-remove k j ((i, w) ∷ m) =
      ground (arith, bytes_eq_iff k j, bytes_eq_iff i k, bytes_eq_iff i j, lookup-remove k j m)

  abbrev pub Unique : Map V → Type ℓ
  Unique [] = Unit
  Unique ((j, v) ∷ m) = (lookup j m ≡ none) × Unique m

  pub insert-Unique : (k : Bytes) (v : V) (m : Map V) → Unique m → Unique (insert k v m)
  unfolding lookup insert
  insert-Unique k v [] u = (refl, tt)
  insert-Unique k v ((i, w) ∷ m) u =
      ground (arith, insert-Unique k v m, lookup-insert k i v m, bytes_eq_iff i k, bytes_eq_iff k i)

  pub remove-Unique : (k : Bytes) (m : Map V) → Unique m → Unique (remove k m)
  unfolding lookup remove
  remove-Unique k [] u = tt
  remove-Unique k ((i, w) ∷ m) u = ground (arith, remove-Unique k m, lookup-remove k i m)

  -- Removing a key that is not there changes nothing.
  pub remove_absent : (k : Bytes) (m : Map V) → lookup k m ≡ none → remove k m ≡ m
  unfolding lookup remove
  remove_absent k [] h = refl
  remove_absent k ((i, w) ∷ m) h = ground (arith, remove_absent k m)

  pub length-remove :
      (k : Bytes) (v : V) (m : Map V)
      → Unique m
      → lookup k m ≡ some v
      → length (remove k m) + 1 ≡ length m
  unfolding lookup remove
  length-remove k v [] u h = cc
  length-remove k v ((i, w) ∷ m) u h =
      ground (arith, bytes_eq_iff i k, length-remove k v m, remove_absent k m)

module _ {ℓ} {V : Type ℓ} (size : V → ℕ) where
  -- The sum of a measure over the values.
  unfoldable pub total : Map V → ℕ
  total [] = 0
  total ((j, v) ∷ m) = size v + total m

  pub total-remove :
      (k : Bytes) (v : V) (m : Map V)
      → Unique m
      → lookup k m ≡ some v
      → total (remove k m) + size v ≡ total m
  unfolding lookup remove total
  total-remove k v [] u h = cc
  total-remove k v ((i, w) ∷ m) u h =
      ground (arith, bytes_eq_iff i k, total-remove k v m, remove_absent k m)

  pub total-insert_new :
      (k : Bytes) (v : V) (m : Map V) → lookup k m ≡ none → total (insert k v m) ≡ total m + size v
  unfolding lookup insert total
  total-insert_new k v [] h = omega arith
  total-insert_new k v ((i, w) ∷ m) h = ground (arith, total-insert_new k v m)

  pub total-insert_old :
      (k : Bytes) (v w : V) (m : Map V)
      → lookup k m ≡ some w
      → total (insert k v m) + size w ≡ total m + size v
  unfolding lookup insert total
  total-insert_old k v w [] h = cc
  total-insert_old k v w ((i, x) ∷ m) h = ground (arith, total-insert_old k v w m)
