-- ===== src/Cpu/Cores.antt =====
-- `cores`: sorted, without repetition, and nothing lost.
use compio_pool.Prelude.{
  ℕ, ◌≤◌, ◌<◌, ◌≡◌, refl, ap, subst, ◌∙◌, ==_iff, ◌⊎◌, inl, inr, true, some, List, [], ◌∷◌, arith,
  total, leb, ◌==◌, if◌then◌else◌, min, Bool-cases, leb→le,
}
use compio_pool.Prelude.Sort.{sort, total-sort, sort-IsOrdered, IsOrdered}
use compio_pool.Cpu.{dedup_after, dedup, cores}

-- How often a number occurs.
abbrev pub count : ℕ → List ℕ → ℕ
count k = total λ j. if j == k then 1 else 0

-- Numbers that ascend strictly, and do so from a first one on.
abbrev pub Above : ℕ → List ℕ → Type 0
Above x [] = Unit {0}
Above x (y ∷ ys) = (x < y) × Above y ys

abbrev pub Ascends : List ℕ → Type 0
Ascends [] = Unit {0}
Ascends (x ∷ xs) = Above x xs

leb_linear : (x y : ℕ) → (leb x y ≡ true) ⊎ (leb y x ≡ true)
leb_linear x y = ground arith

dedup_after-Above : (x : ℕ) (ys : List ℕ) → IsOrdered leb (x ∷ ys) → Above x (dedup_after x ys)
unfolding dedup_after
dedup_after-Above x [] v = tt
dedup_after-Above x (y ∷ ys) v = elim (Bool-cases (y == x)) [
  | inl same ↦
      rw same
        (dedup_after-Above x ys (subst (λ n. IsOrdered leb (n ∷ ys)) ((==_iff y x).0 same) v.1))
  | inr other ↦ rw other (ground (arith, leb→le x y v.0), dedup_after-Above y ys v.1)
]

min-dedup_after :
    (k x : ℕ) (ys : List ℕ) → min 1 (count k (x ∷ dedup_after x ys)) ≡ min 1 (count k (x ∷ ys))
unfolding dedup_after
min-dedup_after k x [] = refl
min-dedup_after k x (y ∷ ys) = elim (Bool-cases (y == x)) [
  | inl same ↦ rw same (ground (arith, min-dedup_after k x ys))
  | inr other ↦ rw other (ground (arith, min-dedup_after k y ys))
]

count-Above : (k x : ℕ) (ys : List ℕ) → Above x ys → k ≤ x → count k ys ≡ 0
count-Above k x [] v h = refl
count-Above k x (y ∷ ys) v h = ground (arith, count-Above k y ys v.1)

count-Above-le : (k x : ℕ) (ys : List ℕ) → Above x ys → count k (x ∷ ys) ≤ 1
count-Above-le k x [] v = ground arith
count-Above-le k x (y ∷ ys) v =
    ground (arith, count-Above-le k y ys v.1, count-Above k x (y ∷ ys) v)

dedup_lem :
    (xs : List ℕ) (k : ℕ)
    → IsOrdered leb xs
    → Ascends (dedup xs) × (count k (dedup xs) ≡ min 1 (count k xs))
unfolding dedup
dedup_lem [] k v = (tt, refl)
dedup_lem (x ∷ xs) k v =
    let a = dedup_after-Above x xs v in
    (a, omega (arith, min-dedup_after k x xs, count-Above-le k x (dedup_after x xs) a))

-- The cores are listed in strictly ascending order, hence once each, and they are exactly the ones
-- that the operating system reported, however often and in whatever order it did.
pub cores_lem :
    (ids : List ℕ) (k : ℕ)
    → Ascends (cores (some ids)) × (count k (cores (some ids)) ≡ min 1 (count k ids))
unfolding cores
cores_lem ids k =
    let (a, b) = dedup_lem (sort leb ids) k (sort-IsOrdered leb leb_linear ids) in
    (a, b ∙ ap (min 1) (total-sort leb (λ j. if j == k then 1 else 0) ids))
