-- ===== src/Planner/Fuel.antt =====
-- planner.go: the termination of parentStages, by a weight of the RDDs.
use go_spark.Prelude.{
  ℕ, zero, suc, ◌+◌, ◌<◌, ◌≤◌, ◌≡◌, refl, ap, ap₂, subst, Bool, true, false, inl, inr, Option, none,
  some, List, [], ◌∷◌, ◌++◌, arith, if◌then◌else◌, All, Option-cases,
}
use go_spark.Planner.{
  Dependency, absent, narrow, shuffle, Lineage, Planner, lookup, Walk, ParentStages,
  get_shuffle_map_stage, visit, walk, start, resume, plan_rdd,
}

abbrev pub Returns {ℓ} : {A : Type ℓ} → Option A → Type 0
Returns none = ⊥
Returns (some a) = Unit

-- The sum of a weight over the parents of the dependencies, and over a stack.
abbrev pub total : (ℕ → ℕ) → List Dependency → ℕ
total weight [] = 0
total weight (absent ∷ deps) = total weight deps
total weight (narrow parent ∷ deps) = weight parent + total weight deps
total weight (shuffle sid n parent ∷ deps) = weight parent + total weight deps

abbrev stack_weight : (ℕ → ℕ) → List ℕ → ℕ
stack_weight weight [] = 0
stack_weight weight (r ∷ stack) = weight r + stack_weight weight stack

module _ (g : Lineage) (weight : ℕ → ℕ)
    (weighs : (r : ℕ) → total weight (g r).dependencies < weight r) where
  get_shuffle_map_stage-Returns :
      (f : ParentStages) (sid n parent : ℕ) (p : Planner)
      → ((q : Planner) → Returns (f q parent))
      → Returns (get_shuffle_map_stage g f sid n parent p)
  unfolding get_shuffle_map_stage
  get_shuffle_map_stage-Returns f sid n parent p h =
      elim (Option-cases (lookup sid p.shuffle_stages)) [
        | inr (id, known) ↦ rw (known, get_shuffle_map_stage) tt
        | inl new ↦
            rw (new, get_shuffle_map_stage)
              (elim (Option-cases (f p parent)) [
                | inl e ↦ absurd (subst Returns e (h p))
                | inr (r, e) ↦ rw e tt
              ])
      ]

  abbrev Lighter : ℕ → Option Walk → Type 0
  Lighter bound none = ⊥
  Lighter bound (some w) = stack_weight weight w.stack ≤ bound

  visit-Lighter :
      (f : ParentStages) (fuel : ℕ) (deps : List Dependency) (bound : ℕ) (w : Walk)
      → ((q : Planner) (rdd : ℕ) → weight rdd < fuel → Returns (f q rdd))
      → total weight deps < fuel
      → stack_weight weight w.stack + total weight deps ≤ bound
      → Lighter bound (visit g f deps w)
  unfolding visit
  visit-Lighter f fuel [] bound w h small fit = omega arith
  visit-Lighter f fuel (absent ∷ deps) bound w h small fit =
      visit-Lighter f fuel deps bound w h small fit
  visit-Lighter f fuel (narrow parent ∷ deps) bound w h small fit =
      visit-Lighter f fuel deps bound (record w { stack = parent ∷ w.stack }) h (omega arith)
        (omega arith)
  visit-Lighter f fuel (shuffle sid n parent ∷ deps) bound w h small fit =
      elim (Option-cases (get_shuffle_map_stage g f sid n parent w.planner)) [
        | inl e ↦ absurd (
            subst Returns e (
              get_shuffle_map_stage-Returns f sid n parent w.planner
                (λ q. h q parent (omega arith))))
        | inr ((id, q), e) ↦
            rw (e, visit)
              (visit-Lighter f fuel deps bound (record w { planner = q; ids = w.ids ++ id ∷ [] }) h
                (omega arith) (omega arith))
      ]

  resume-Returns :
      (f : Walk → List ℕ → Option (List ℕ × Planner)) (bound : ℕ) (r : Option Walk)
      → ((w : Walk) (stack : List ℕ) → stack_weight weight stack ≤ bound → Returns (f w stack))
      → Lighter bound r
      → Returns (resume f r)
  resume-Returns f bound none h l = l
  resume-Returns f bound (some w) h l = h w w.stack l

  if-Returns :
      (b : Bool) (x y : Option (List ℕ × Planner))
      → Returns x
      → Returns y
      → Returns (if b then x else y)
  if-Returns true x y h k = h
  if-Returns false x y h k = k

  walk-Returns :
      (fuel : ℕ) (w : Walk) (stack : List ℕ)
      → stack_weight weight stack < fuel
      → Returns (walk g fuel w stack)
  unfolding walk
  walk-Returns zero w stack small = elim small [ ]
  walk-Returns (suc fuel) w [] small = tt
  walk-Returns (suc fuel) w (cur ∷ stack) small =
      let heavy : total weight (g cur).dependencies < weight cur = weighs cur in
      let bound = stack_weight weight stack + total weight (g cur).dependencies in
      if-Returns _ (walk g fuel w stack) _ (walk-Returns fuel w stack (omega arith)) (
        resume-Returns (walk g fuel) bound _ (λ v rest le. walk-Returns fuel v rest (omega arith))
          (visit-Lighter _ fuel (g cur).dependencies bound _
            (λ q rdd light. walk-Returns fuel (start q) (rdd ∷ []) (omega arith)) (omega arith)
            (omega arith)))

  plan_rdd_weighed : (fuel rdd : ℕ) → weight rdd < fuel → Returns (plan_rdd g fuel rdd)
  unfolding plan_rdd
  plan_rdd_weighed fuel rdd small =
      let empty : Planner = record { shuffle_stages = []; stages = []; next_id = 0 } in
      elim (Option-cases (walk g fuel (start empty) (rdd ∷ []))) [
        | inl e ↦
            absurd (subst Returns e (walk-Returns fuel (start empty) (rdd ∷ []) (omega arith)))
        | inr (r, e) ↦ rw (e, plan_rdd) tt
      ]

-- The parent of a dependency is an RDD that was made earlier.
abbrev pub Earlier : ℕ → Dependency → Type 0
Earlier r absent = Unit
Earlier r (narrow parent) = parent < r
Earlier r (shuffle sid n parent) = parent < r

abbrev pub IsLineage : Lineage → Type 0
IsLineage g = (r : ℕ) → All (Earlier r) (g r).dependencies

-- One for each path down the lineage from an RDD, `k` levels deep.
unfoldable pub weight_to : Lineage → ℕ → ℕ → ℕ
weight_to g zero r = 0
weight_to g (suc k) r = suc (total (weight_to g k) (g r).dependencies)

total_ext :
    (u v : ℕ → ℕ) (r : ℕ) (deps : List Dependency)
    → ((q : ℕ) → q < r → u q ≡ v q)
    → All (Earlier r) deps
    → total u deps ≡ total v deps
total_ext u v r [] h a = refl
total_ext u v r (absent ∷ deps) h a = total_ext u v r deps h a.1
total_ext u v r (narrow parent ∷ deps) h a = ap₂ ◌+◌ (h parent a.0) (total_ext u v r deps h a.1)
total_ext u v r (shuffle sid n parent ∷ deps) h a =
    ap₂ ◌+◌ (h parent a.0) (total_ext u v r deps h a.1)

module _ (g : Lineage) (lineage : IsLineage g) where
  weight_to_stable : (j k r : ℕ) → r < j → r < k → weight_to g j r ≡ weight_to g k r
  unfolding weight_to
  weight_to_stable zero k r h h' = elim h [ ]
  weight_to_stable (suc j) zero r h h' = elim h' [ ]
  weight_to_stable (suc j) (suc k) r h h' = ap suc (
      total_ext (weight_to g j) (weight_to g k) r (g r).dependencies
        (λ q lt. weight_to_stable j k q (omega arith) (omega arith)) (lineage r))

  abbrev pub weight : ℕ → ℕ
  weight r = weight_to g (suc r) r

  weight_weighs : (r : ℕ) → total weight (g r).dependencies < weight r
  unfolding weight_to
  weight_weighs r =
      let e : total weight (g r).dependencies ≡ total (weight_to g r) (g r).dependencies =
        total_ext weight (weight_to g r) r (g r).dependencies
          (λ q lt. weight_to_stable (suc q) r q (omega arith) lt) (lineage r) in
      omega arith

  -- On every lineage whose parents are earlier RDDs, fuel beyond the weight of an RDD gives a plan
  -- of it.
  pub plan_rdd-Returns : (fuel rdd : ℕ) → weight rdd < fuel → Returns (plan_rdd g fuel rdd)
  plan_rdd-Returns = plan_rdd_weighed g weight weight_weighs
