-- ===== src/Accumulators/Bound.antt =====
-- accumulator.go: the updates of tasks whose accumulators were bound to their job.
use go_spark.Prelude.{
  ℕ, ◌≡◌, refl, subst, Bool-cases, inl, inr, true, Option-cases, some, List, [], ◌∷◌, arith, map,
  All,
}
use go_spark.Prelude.Maps.{list_eq, OneEntry, beq-absent, lookup, delete, assign}
use go_spark.Prelude.Results.{ok}
use go_spark.Accumulators.{
  Name, Kind, Kind_beq, int64, float64, AccumulatorValue, AccumulatorSet, Updates, Addition,
  to_int64, to_float64, kind_is, add_int64, add_float64, additions, bind_accumulators, declare,
  prepare_accumulators, task_updates, all_known, all_results_known, merge_results,
  merge_accumulators,
}

Kind_beq_refl : (k : Kind) → Kind_beq k k ≡ true
Kind_beq_refl int64 = refl
Kind_beq_refl float64 = refl

module _ {F : Type 0} (zero_value : F) (add : F → F → F) (s : AccumulatorSet F) where
  -- The accumulator is registered, with its kind.
  abbrev Known : Name × AccumulatorValue F → Type 0
  Known e = kind_is zero_value add e.1.kind (lookup e.0 s.values) ≡ true

  All-delete : (name : Name) (m : Updates F) → All Known m → All Known (delete name m)
  unfolding delete
  All-delete name [] a = tt
  All-delete name ((n, v) ∷ m) a = elim (Bool-cases (list_eq.beq n name)) [
    | inl hit ↦ rw hit (All-delete name m a.1)
    | inr miss ↦ rw miss (a.0, All-delete name m a.1)
  ]

  Known-lookup :
      (name : Name) (m : Updates F) (v : AccumulatorValue F)
      → All Known m
      → lookup name m ≡ some v
      → Known (name, v)
  Known-lookup name [] v a e = cc
  Known-lookup name ((n, u) ∷ m) v a e = elim (Bool-cases (list_eq.beq n name)) [
    | inl hit ↦
        let same : n ≡ name = (list_eq.beq_iff n name).0 hit in
        let value : u ≡ v = ground (arith, hit, e) in
        subst (λ x. Known (x, v)) same (subst (λ x. Known (n, x)) value a.0)
    | inr miss ↦ Known-lookup name m v a.1 (ground (arith, miss, e))
  ]

  add_int64-Known :
      (name : Name) (delta : ℕ) (t : AccumulatorSet F)
      → All Known t.values
      → All Known (add_int64 zero_value add name delta t).values
  unfolding add_int64 assign
  add_int64-Known name delta t a = elim (Option-cases (lookup name t.values)) [
    | inl absent ↦ rw (absent, add_int64) a
    | inr (v, found) ↦
        rw (found, add_int64) (Known-lookup name t.values v a found, All-delete name t.values a)
  ]

  add_float64-Known :
      (name : Name) (delta : F) (t : AccumulatorSet F)
      → All Known t.values
      → All Known (add_float64 zero_value add name delta t).values
  unfolding add_float64 assign
  add_float64-Known name delta t a = elim (Option-cases (lookup name t.values)) [
    | inl absent ↦ rw (absent, add_float64) a
    | inr (v, found) ↦
        rw (found, add_float64) (Known-lookup name t.values v a found, All-delete name t.values a)
  ]

  additions-Known :
      (adds : List (Addition F)) (t : AccumulatorSet F)
      → All Known t.values
      → All Known (additions zero_value add adds t).values
  unfolding additions
  additions-Known [] t a = a
  additions-Known (to_int64 name delta ∷ adds) t a =
      additions-Known adds _ (add_int64-Known name delta t a)
  additions-Known (to_float64 name delta ∷ adds) t a =
      additions-Known adds _ (add_float64-Known name delta t a)

  -- The definition is that of a registered accumulator.
  abbrev KnownDef : Name × Kind → Type 0
  KnownDef d = kind_is zero_value add d.1 (lookup d.0 s.values) ≡ true

  declare-Known :
      (defs : List (Name × Kind)) (m : Updates F)
      → All KnownDef defs
      → All Known m
      → All Known (declare zero_value add defs m)
  unfolding declare assign
  declare-Known [] m d a = a
  declare-Known ((name, kind) ∷ defs) m d a = declare-Known defs _ d.1 (d.0, All-delete name m a)

  task_updates-Known :
      (defs : List (Name × Kind)) (adds : List (Addition F))
      → All KnownDef defs
      → All Known (task_updates zero_value add defs adds)
  unfolding task_updates prepare_accumulators
  task_updates-Known defs adds d = additions-Known adds _ (declare-Known defs [] d tt)

  all_known-Known :
      (updates : Updates F) → All Known updates → all_known zero_value add s updates ≡ true
  unfolding all_known
  all_known-Known [] a = refl
  all_known-Known ((name, v) ∷ updates) a = ground (arith, a.0, all_known-Known updates a.1)

  all_results_known-Known :
      (defs : List (Name × Kind)) (tasks : List (List (Addition F)))
      → All KnownDef defs
      → all_results_known zero_value add s (map (task_updates zero_value add defs) tasks) ≡ true
  unfolding all_results_known
  all_results_known-Known defs [] d = refl
  all_results_known-Known defs (adds ∷ tasks) d = ground (
    arith,
    all_known-Known _ (task_updates-Known defs adds d),
    all_results_known-Known defs tasks d,
  )

module _ {F : Type 0} (zero_value : F) (add : F → F → F) where
  -- The definitions that a set binds, against a set that has its values.
  bound-KnownDef :
      (m : Updates F) (s : AccumulatorSet F)
      → OneEntry m
      → ((name : Name) (v : AccumulatorValue F)
          → lookup name m ≡ some v
          → lookup name s.values ≡ some v)
      → All (KnownDef zero_value add s) (map (λ e. (e.0, e.1.kind)) m)
  bound-KnownDef [] s h f = tt
  bound-KnownDef ((name, v) ∷ m) s h f = (
    ground (arith, f name v (ground (arith, list_eq.beq_iff name name)), Kind_beq_refl v.kind),
    bound-KnownDef m s h.1 (λ n u e. f n u (ground (arith, beq-absent name n u m h.0 e, e))),
  )

  -- The merge of the updates of tasks whose contexts were prepared with the accumulators that are
  -- bound never fails, whatever the tasks add, if each accumulator is registered once.
  pub merge_accumulators-ok :
      (s : AccumulatorSet F) (defs : List (Name × Kind)) (tasks : List (List (Addition F)))
      → OneEntry s.values
      → bind_accumulators zero_value add s ≡ ok defs
      → merge_accumulators zero_value add (map (task_updates zero_value add defs) tasks) s
        ≡ ok (merge_results zero_value add (map (task_updates zero_value add defs) tasks) s)
  unfolding merge_accumulators bind_accumulators
  merge_accumulators-ok s defs tasks one bound =
      let same : map (λ e. (e.0, e.1.kind)) s.values ≡ defs = ground (arith, bound) in
      let known =
        subst (All (KnownDef zero_value add s)) same
          (bound-KnownDef s.values s one (λ name v e. e)) in
      let all = all_results_known-Known zero_value add s defs tasks known in ground (arith, all)
