-- ===== src/Prelude/Sort.antt =====
-- Stable sorting as the standard library's `sort_by_key` does it, here by insertion, and what it
-- keeps: order and contents.
use Prim.Native.Nat.{ℕ, ◌+◌}
use mathlib.Core.Path.{◌≡◌, refl}
use mathlib.Core.Logic.{◌⊎◌}
use mathlib.Core.Bool.{Bool, true}
use mathlib.Core.List.{List, [], ◌∷◌}
use native.Mathlib.Omega.{arith}
use compio_pool.Prelude.Tests.{if◌then◌else◌}
use compio_pool.Prelude.Lists.{total}

module _ {ℓ} {A : Type ℓ} (le : A → A → Bool) where
  unfoldable pub insert : A → List A → List A
  insert x [] = x ∷ []
  insert x (y ∷ ys) = if le x y then x ∷ y ∷ ys else y ∷ insert x ys

  unfoldable pub sort : List A → List A
  unfolding insert
  sort [] = []
  sort (x ∷ xs) = insert x (sort xs)

  total-insert : (f : A → ℕ) (x : A) (ys : List A) → total f (insert x ys) ≡ f x + total f ys
  unfolding insert
  total-insert f x [] = refl
  total-insert f x (y ∷ ys) = ground (arith, total-insert f x ys)

  -- Sorting neither adds nor loses an entry: every weighted sum stays.
  pub total-sort : (f : A → ℕ) (xs : List A) → total f (sort xs) ≡ total f xs
  unfolding sort
  total-sort f [] = refl
  total-sort f (x ∷ xs) = ground (arith, total-insert f x (sort xs), total-sort f xs)

  -- Each entry is at or before its successor.
  abbrev pub IsOrdered : List A → Type 0
  IsOrdered [] = Unit {0}
  IsOrdered (x ∷ []) = Unit {0}
  IsOrdered (x ∷ y ∷ ys) = (le x y ≡ true) × IsOrdered (y ∷ ys)

module _ {ℓ} {A : Type ℓ} (le : A → A → Bool)
    (linear : (x y : A) → (le x y ≡ true) ⊎ (le y x ≡ true)) where
  insert-IsOrdered : (x : A) (ys : List A) → IsOrdered le ys → IsOrdered le (insert le x ys)
  unfolding insert
  insert-IsOrdered x [] v = tt
  insert-IsOrdered x (y ∷ []) v = ground (arith, linear x y)
  insert-IsOrdered x (y ∷ z ∷ zs) v = ground (arith, linear x y, insert-IsOrdered x (z ∷ zs) v.1)

  pub sort-IsOrdered : (xs : List A) → IsOrdered le (sort le xs)
  unfolding sort
  sort-IsOrdered [] = tt
  sort-IsOrdered (x ∷ xs) = insert-IsOrdered x (sort le xs) (sort-IsOrdered xs)
