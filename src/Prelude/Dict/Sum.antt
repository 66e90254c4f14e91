-- ===== src/Prelude/Dict/Sum.antt =====
-- Adding up the values of a dict whose keys pass a test.
use memeval.Prelude.{ℕ, ◌+◌, ◌≤◌, ◌≡◌, Bool, none, some, [], ◌∷◌, if◌then◌else◌, Eq, arith}
use memeval.Prelude.Int.{ℤ, pos, ◌+ℤ◌, int_laws}
use memeval.Prelude.Dict.{Dict, get, get_or, put, remove}

module _ {K : Type 0} ⦃e : Eq K⦄ (p : K → Bool) where
  unfoldable pub sum_where : Dict K ℤ → ℤ
  sum_where [] = pos 0
  sum_where ((k, v) ∷ d) = let rest = sum_where d in if p k then v +ℤ rest else rest

  -- A write replaces what was there by the value that is written.
  pub sum_where-put :
      (d : Dict K ℤ) (k : K) (v : ℤ)
      → sum_where (put d k v) +ℤ (if p k then get_or d k (pos 0) else pos 0)
        ≡ sum_where d +ℤ (if p k then v else pos 0)
  unfolding sum_where put get
  sum_where-put [] k v = grind int_laws
  sum_where-put ((j, w) ∷ d) k v = grind (int_laws, e.beq_iff j k, sum_where-put d k v)

module _ {K V : Type 0} ⦃e : Eq K⦄ (f : V → ℕ) where
  unfoldable pub sum_by : Dict K V → ℕ
  sum_by [] = 0
  sum_by ((_, v) ∷ d) = f v + sum_by d

  unfoldable pub measure_at : Dict K V → K → ℕ
  measure_at d k = elim (get d k) [ none ↦ 0 | some v ↦ f v ]

  pub sum_by-put :
      (d : Dict K V) (k : K) (v : V) → sum_by (put d k v) + measure_at d k ≡ sum_by d + f v
  unfolding sum_by put get measure_at
  sum_by-put [] k v = omega arith
  sum_by-put ((j, w) ∷ d) k v = ground (arith, sum_by-put d k v)

  pub measure_at_le : (d : Dict K V) (k : K) → measure_at d k ≤ sum_by d
  unfolding sum_by get measure_at
  measure_at_le [] k = omega arith
  measure_at_le ((j, w) ∷ d) k = ground (arith, measure_at_le d k)

  pub measure_at-some : (d : Dict K V) (k : K) {v : V} → get d k ≡ some v → measure_at d k ≡ f v
  unfolding measure_at
  measure_at-some d k h = ground arith

  pub measure_at-none : (d : Dict K V) (k : K) → get d k ≡ none → measure_at d k ≡ 0
  unfolding measure_at
  measure_at-none d k h = ground arith

  pub sum_by-remove : (d : Dict K V) (k : K) → sum_by (remove d k) + measure_at d k ≡ sum_by d
  unfolding sum_by remove get measure_at
  sum_by-remove [] k = omega arith
  sum_by-remove ((j, w) ∷ d) k = ground (arith, sum_by-remove d k)
