-- ===== src/CoreSet/Order.antt =====
-- `spread` and `pack` reorder a set: neither adds, drops or repeats a core.
use compio_pool.Prelude.{
  ℕ, zero, suc, ◌+◌, ◌<◌, ◌≡◌, refl, sym, ap, true, List, [], ◌∷◌, map, arith, total, total-append,
  List-cases, ◌⊎◌, inl, inr, length,
}
use compio_pool.Prelude.Sort.{sort, total-sort, sort-IsOrdered, IsOrdered}
use compio_pool.CoreSet.{
  CoreInfo, CoreSet, column_le, pack_le, push_group, group_all, pass, drain, spread, pack,
}

module _ (f : CoreInfo → ℕ) where
  abbrev columns_total : List CoreSet → ℕ
  columns_total = total λ column. total f column

  total-push_group :
      (c : CoreInfo) (gs : List (ℕ × CoreSet))
      → total (λ g. total f g.1) (push_group c gs) ≡ f c + total (λ g. total f g.1) gs
  unfolding push_group
  total-push_group c [] = omega arith
  total-push_group c ((p, g) ∷ gs) =
      ground (arith, total-push_group c gs, total-append f g (c ∷ []))

  total-group_all :
      (cs : CoreSet) (gs : List (ℕ × CoreSet))
      → total (λ g. total f g.1) (group_all cs gs) ≡ total f cs + total (λ g. total f g.1) gs
  unfolding group_all
  total-group_all [] gs = omega arith
  total-group_all (c ∷ cs) gs =
      omega (arith, total-group_all cs (push_group c gs), total-push_group c gs)

  total-columns :
      (gs : List (ℕ × CoreSet))
      → columns_total (map (λ g. sort column_le g.1) gs) ≡ total (λ g. total f g.1) gs
  total-columns [] = refl
  total-columns ((p, g) ∷ gs) = omega (arith, total-columns gs, total-sort column_le f g)

  total-pass :
      (cols : List CoreSet)
      → total f (pass cols).0 + columns_total (pass cols).1 ≡ columns_total cols
  unfolding pass
  total-pass [] = refl
  total-pass ([] ∷ cols) = omega (arith, total-pass cols)
  total-pass ((c ∷ col) ∷ cols) = omega (arith, total-pass cols)

  -- A pass that yields nothing has found every column empty.
  pass-nil : (cols : List CoreSet) → (pass cols).0 ≡ [] → columns_total cols ≡ 0
  unfolding pass
  pass-nil [] e = refl
  pass-nil ([] ∷ cols) e = omega (arith, pass-nil cols e)
  pass-nil ((c ∷ col) ∷ cols) e = cc

abbrev one : CoreInfo → ℕ
one c = 1

abbrev size : List CoreSet → ℕ
size = columns_total one

length-total : (cs : CoreSet) → total one cs ≡ length cs
length-total [] = refl
length-total (c ∷ cs) = omega (arith, length-total cs)

module _ (f : CoreInfo → ℕ) where
  -- With more passes than there are cores, the columns are drained.
  total-drain :
      (passes : ℕ) (cols : List CoreSet)
      → size cols < passes
      → total f (drain passes cols) ≡ columns_total f cols
  unfolding drain
  total-drain zero cols h = elim h [ ]
  total-drain (suc passes) cols h = elim (List-cases (pass cols).0) [
    | inl e ↦ rw (e, drain) (sym (pass-nil f cols e))
    | inr (c, out, e) ↦
        let n = total-pass one cols in
        let m = ap (total one) e in
        let smaller : size (pass cols).1 < passes = omega (arith, n, m) in
        rw (e, drain)
          (omega (
            arith,
            total-append f (c ∷ out) (drain passes (pass cols).1),
            total-drain passes (pass cols).1 smaller,
            total-pass f cols,
            ap (total f) e,
          ))
  ]

  -- `spread` yields every core of the set as often as the set holds it, and no other: each weighted
  -- sum over the set stays what it was. In particular its loop has drained every column.
  pub total-spread : (cs : CoreSet) → total f (spread cs) ≡ total f cs
  unfolding spread
  total-spread cs =
      let columns = map (λ (g : ℕ × CoreSet). sort column_le g.1) (group_all cs []) in
      let few : size columns < suc (length cs) =
        omega (
          arith,
          total-columns one (group_all cs []),
          total-group_all one cs [],
          length-total cs,
        ) in
      omega (
        arith,
        total-drain (suc (length cs)) columns few,
        total-columns f (group_all cs []),
        total-group_all f cs [],
      )

pack_linear : (x y : CoreInfo) → (pack_le x y ≡ true) ⊎ (pack_le y x ≡ true)
pack_linear x y = ground arith

-- `pack` lists the same cores in ascending order of package, then node, then physical core, then id.
pub pack_lem :
    (f : CoreInfo → ℕ) (cs : CoreSet)
    → IsOrdered pack_le (pack cs) × (total f (pack cs) ≡ total f cs)
unfolding pack
pack_lem f cs = (sort-IsOrdered pack_le pack_linear cs, total-sort pack_le f cs)
