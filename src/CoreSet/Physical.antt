-- ===== src/CoreSet/Physical.antt =====
-- `physical_only` keeps one logical cpu of each physical core: the first.
use compio_pool.Prelude.{
  ℕ, ◌≡◌, refl, true, Option, none, some, List, [], ◌∷◌, arith, total, if◌then◌else◌, min,
  Bool-cases, inl, inr,
}
use compio_pool.CoreSet.{CoreInfo, CoreSet, same_core, seen_core, retain_new, physical_only}

-- How many cpus of a set are on the physical core of `k`, and the first of them.
abbrev pub count : CoreInfo → CoreSet → ℕ
count k = total λ c. if same_core c k then 1 else 0

unfoldable pub first : CoreInfo → CoreSet → Option CoreInfo
first k [] = none
first k (c ∷ cs) = if same_core c k then some c else first k cs

same_core_trans : (a b c : CoreInfo) → same_core a b ≡ true → same_core a c ≡ same_core b c
same_core_trans a b c h = ground arith

seen_core-same :
    (seen : List CoreInfo) (c k : CoreInfo)
    → same_core c k ≡ true
    → seen_core seen c ≡ seen_core seen k
seen_core-same [] c k h = refl
seen_core-same (s ∷ seen) c k h = ground (arith, seen_core-same seen c k h)

retain_new_lem :
    (seen : List CoreInfo) (cs : CoreSet) (k : CoreInfo)
    → (count k (retain_new seen cs) ≡ (if seen_core seen k then 0 else min 1 (count k cs)))
      × (first k (retain_new seen cs) ≡ (if seen_core seen k then none else first k cs))
unfolding retain_new first
retain_new_lem seen [] k = ground arith
retain_new_lem seen (c ∷ cs) k = elim (Bool-cases (same_core c k)) [
  | inl same ↦ ground (
    arith,
    retain_new_lem (c ∷ seen) cs k,
    retain_new_lem seen cs k,
    seen_core-same seen c k same,
    same,
  )
  | inr other ↦ ground (arith, retain_new_lem (c ∷ seen) cs k, retain_new_lem seen cs k, other)
]

-- Of the cpus on one physical core, that is with the same package and the same core id within it,
-- `physical_only` keeps exactly one, if there is any: the one that stands first.
pub physical_only_lem :
    (cs : CoreSet) (k : CoreInfo)
    → (count k (physical_only cs) ≡ min 1 (count k cs)) × (first k (physical_only cs) ≡ first k cs)
unfolding physical_only
physical_only_lem cs k = retain_new_lem [] cs k
