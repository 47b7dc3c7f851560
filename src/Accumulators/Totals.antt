-- ===== src/Accumulators/Totals.antt =====
-- accumulator.go: the totals that mergeAccumulators leaves, and the updates that it takes.
use go_spark.Prelude.{
  ℕ, ◌+◌, ◌%◌, ◌^◌, ◌≡◌, refl, sym, subst, Bool-cases, inl, inr, Option-cases, some, List, [], ◌∷◌,
  arith, if◌then◌else◌,
}
use go_spark.Prelude.Maps.{list_eq, lookup, lookup-assign}
use go_spark.Prelude.Results.{ok}
use go_spark.Accumulators.{
  Name, AccumulatorValue, AccumulatorSet, Updates, increased, all_results_known, merge_update,
  merge_updates, merge_results, merge_accumulators,
}

module _ {F : Type 0} where
  -- The sum of the updates of a name.
  abbrev pub sum_of : Name → Updates F → ℕ
  sum_of name [] = 0
  sum_of name ((n, v) ∷ updates) =
      if list_eq.beq n name then v.int64_value + sum_of name updates else sum_of name updates

  abbrev pub sum_of_all : Name → List (Updates F) → ℕ
  sum_of_all name [] = 0
  sum_of_all name (updates ∷ results) = sum_of name updates + sum_of_all name results

  -- A value of the same kind whose int64 is the sum of another's and of `n`, which wraps.
  pub record IsSum (v : AccumulatorValue F) (n : ℕ) (v' : AccumulatorValue F) : Type 0 where
    pub kind : v'.kind ≡ v.kind
    pub total : v'.int64_value % 2 ^ 64 ≡ (v.int64_value + n) % 2 ^ 64

  IsSum-trans :
      (a b c : AccumulatorValue F) (m n : ℕ) → IsSum a m b → IsSum b n c → IsSum a (m + n) c
  IsSum-trans a b c m n f g = record {
    kind = rw (g.kind, f.kind) refl;
    total = omega (arith, f.total, g.total);
  }

module _ {F : Type 0} (zero_value : F) (add : F → F → F) where
  -- A name with the value that it had, and the sum of what was merged.
  abbrev pub Holds : Name → AccumulatorValue F → ℕ → AccumulatorSet F → Type 0
  Holds name v n s = (v' : AccumulatorValue F) × (lookup name s.values ≡ some v') × IsSum v n v'

  merge_update-Holds :
      (name n : Name) (v u : AccumulatorValue F) (s : AccumulatorSet F)
      → lookup name s.values ≡ some v
      → Holds name v
          (if list_eq.beq n name then u.int64_value else 0)
          (merge_update zero_value add n u s)
  unfolding merge_update
  merge_update-Holds name n v u s at = elim (Bool-cases (list_eq.beq n name)) [
    | inl hit ↦
        let same : n ≡ name = (list_eq.beq_iff n name).0 hit in
        let found : lookup n s.values ≡ some v =
          subst (λ x. lookup x s.values ≡ some v) (sym same) at in
        let v' = increased zero_value add u.int64_value u.float64_value v in
        (
          v',
          ground (arith, found, hit, lookup-assign name n v' s.values),
          rw hit (record { kind = refl; total = omega arith }),
        )
    | inr miss ↦
        let kept : lookup name (merge_update zero_value add n u s).values ≡ some v =
          elim (Option-cases (lookup n s.values)) [
            | inl absent ↦ ground (arith, absent, at)
            | inr (old, found) ↦ ground (
              arith,
              found,
              miss,
              at,
              lookup-assign name n (increased zero_value add u.int64_value u.float64_value old)
                  s.values,
            )
          ] in
        (v, kept, rw miss (record { kind = refl; total = omega arith }))
  ]

  Holds-trans :
      (name : Name) (v : AccumulatorValue F) (m n : ℕ) (s s' : AccumulatorSet F)
      → Holds name v m s
      → ((v' : AccumulatorValue F) → lookup name s.values ≡ some v' → Holds name v' n s')
      → Holds name v (m + n) s'
  Holds-trans name v m n s s' (v', at, sum) next =
      let (v'', at', sum') = next v' at in (v'', at', IsSum-trans v v' v'' m n sum sum')

  merge_updates-Holds :
      (name : Name) (v : AccumulatorValue F) (updates : Updates F) (s : AccumulatorSet F)
      → lookup name s.values ≡ some v
      → Holds name v (sum_of name updates) (merge_updates zero_value add updates s)
  unfolding merge_updates
  merge_updates-Holds name v [] s at = (v, at, record { kind = refl; total = omega arith })
  merge_updates-Holds name v ((n, u) ∷ updates) s at =
      let same : (if list_eq.beq n name then u.int64_value else 0) + sum_of name updates
          ≡ sum_of name ((n, u) ∷ updates) =
        ground arith in
      subst
        (λ k.
          Holds name v k (merge_updates zero_value add updates (merge_update zero_value add n u s)))
        same
        (Holds-trans name v _ _ (merge_update zero_value add n u s)
          (merge_updates zero_value add updates (merge_update zero_value add n u s))
          (merge_update-Holds name n v u s at)
          (λ v' at'. merge_updates-Holds name v' updates (merge_update zero_value add n u s) at'))

  merge_results-Holds :
      (name : Name) (v : AccumulatorValue F) (results : List (Updates F)) (s : AccumulatorSet F)
      → lookup name s.values ≡ some v
      → Holds name v (sum_of_all name results) (merge_results zero_value add results s)
  unfolding merge_results
  merge_results-Holds name v [] s at = (v, at, record { kind = refl; total = omega arith })
  merge_results-Holds name v (updates ∷ results) s at =
      Holds-trans name v _ _ (merge_updates zero_value add updates s)
        (merge_results zero_value add results (merge_updates zero_value add updates s))
        (merge_updates-Holds name v updates s at)
        (λ v' at'. merge_results-Holds name v' results (merge_updates zero_value add updates s) at')

  -- If mergeAccumulators does not fail, every accumulator keeps its kind, and the int64 of each is
  -- what it was and the sum of the updates of its name, modulo 2 ^ 64.
  pub merge_accumulators-Holds :
      (results : List (Updates F)) (s s' : AccumulatorSet F) (name : Name) (v : AccumulatorValue F)
      → merge_accumulators zero_value add results s ≡ ok s'
      → lookup name s.values ≡ some v
      → Holds name v (sum_of_all name results) s'
  unfolding merge_accumulators
  merge_accumulators-Holds results s s' name v merged at =
      elim (Bool-cases (all_results_known zero_value add s results)) [
        | inl known ↦
            let same : merge_results zero_value add results s ≡ s' =
              ground (arith, known, merged) in
            subst (Holds name v (sum_of_all name results)) same
              (merge_results-Holds name v results s at)
        | inr unknown ↦ absurd (ground (arith, unknown, merged))
      ]
