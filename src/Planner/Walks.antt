-- ===== src/Planner/Walks.antt =====
-- planner.go: the walk over the lineage against the invariant of the planner.
use go_spark.Prelude.{
  ℕ, zero, suc, ◌+◌, ◌≡◌, refl, sym, subst, Bool, true, false, inl, inr, Option, none, some, List,
  [], ◌∷◌, ◌++◌, arith, ◌==◌, if◌then◌else◌, length, length-append, All, All-append, Bool-cases,
  Option-cases, append-nil, All-imp,
}
use go_spark.Planner.{
  Dependency, absent, narrow, shuffle, Lineage, shuffle_map, Stage, Planner, lookup, unique_ints,
  add_map_stage, Walk, ParentStages, get_shuffle_map_stage, visit, walk, start, resume, JobPlan,
  plan_rdd,
}
use go_spark.Planner.Stages.{
  IsMapStage, IsPlanned, Grows, Grows-trans, IsMapStages-Grows, get_elem?-last, IsWaiting-with,
  IsMapStage-later, All-unique_ints, Numbered, IsWaiting,
}

-- What planning from `p` must give: a plan that grows, and map stages of it.
abbrev pub PlannedIds : Planner → Option (List ℕ × Planner) → Type 0
PlannedIds p none = Unit
PlannedIds p (some (ids, p')) = IsPlanned p' × All (IsMapStage p'.stages) ids × Grows p p'

abbrev PlannedStage : Planner → Option (ℕ × Planner) → Type 0
PlannedStage p none = Unit
PlannedStage p (some (id, p')) = IsPlanned p' × IsMapStage p'.stages id × Grows p p'

abbrev Plans : ParentStages → Type 0
Plans f = (p : Planner) (rdd : ℕ) → IsPlanned p → PlannedIds p (f p rdd)

-- The IDs that a walk holds are map stages of its plan, which has grown from `p`.
abbrev PlannedWalk : Planner → Option Walk → Type 0
PlannedWalk p none = Unit
PlannedWalk p (some w) =
    IsPlanned w.planner × All (IsMapStage w.planner.stages) w.ids × Grows p w.planner

Grows-refl : (p : Planner) → Grows p p
Grows-refl p = ([], sym (append-nil p.stages))

lookup-IsMapStage :
    (stages : List Stage) (k id : ℕ) (m : List (ℕ × ℕ))
    → All (λ (e : ℕ × ℕ). IsMapStage stages e.1) m
    → lookup k m ≡ some id
    → IsMapStage stages id
lookup-IsMapStage stages k id [] a e = absurd (cc)
lookup-IsMapStage stages k id ((j, v) ∷ m) a e = elim (Bool-cases (j == k)) [
  | inl hit ↦ let same : v ≡ id = ground arith in subst (IsMapStage stages) same a.0
  | inr miss ↦ lookup-IsMapStage stages k id m a.1 (ground arith)
]

module _ (g : Lineage) where
  add_map_stage-Planned :
      (sid n parent : ℕ) (ids : List ℕ) (p : Planner)
      → IsPlanned p
      → All (IsMapStage p.stages) ids
      → PlannedStage p (some (add_map_stage g sid n parent ids p))
  unfolding add_map_stage
  add_map_stage-Planned sid n parent ids p v a =
      let s : Stage = record {
        id = p.next_id;
        kind = shuffle_map;
        rdd_id = parent;
        num_partitions = (g parent).num_partitions;
        shuffle_id = sid;
        num_reducers = n;
        parents = unique_ints ids;
      } in
      let (numbered, waiting) =
        IsWaiting-with p s v refl (All-unique_ints (IsMapStage p.stages) ids a) in
      let own : IsMapStage (p.stages ++ s ∷ []) p.next_id =
        (s, get_elem?-last p.stages p.next_id s v.next, refl) in
      (
        record {
          numbered = numbered;
          next = omega (arith, v.next, length-append p.stages (s ∷ []));
          waiting = waiting;
          shuffles = (
            own,
            All-imp (λ (e : ℕ × ℕ). IsMapStage p.stages e.1)
                (λ e. IsMapStage (p.stages ++ s ∷ []) e.1) p.shuffle_stages
                (λ e. IsMapStage-later p.stages s e.1) v.shuffles,
          );
        },
        own,
        (s ∷ [], refl),
      )

  PlannedStage-later :
      (p q : Planner) (r : Option (ℕ × Planner)) → Grows p q → PlannedStage q r → PlannedStage p r
  PlannedStage-later p q none h a = tt
  PlannedStage-later p q (some (id, p')) h (v, m, grows) = (v, m, Grows-trans p q p' h grows)

  get_shuffle_map_stage-Planned :
      (f : ParentStages) (sid n parent : ℕ) (p : Planner)
      → Plans f
      → IsPlanned p
      → PlannedStage p (get_shuffle_map_stage g f sid n parent p)
  unfolding get_shuffle_map_stage
  get_shuffle_map_stage-Planned f sid n parent p plans v =
      elim (Option-cases (lookup sid p.shuffle_stages)) [
        | inr (id, known) ↦
            rw (known, get_shuffle_map_stage)
              (v, lookup-IsMapStage p.stages sid id p.shuffle_stages v.shuffles known, Grows-refl p)
        | inl new ↦
            rw (new, get_shuffle_map_stage)
              (elim (Option-cases (f p parent)) [
                | inl e ↦ rw e tt
                | inr ((ids, p'), e) ↦
                    let (v', m, grows) = subst (PlannedIds p) e (plans p parent v) in
                    rw e (
                      PlannedStage-later p p' (some (add_map_stage g sid n parent ids p')) grows
                        (add_map_stage-Planned sid n parent ids p' v' m))
              ])
      ]

  visit-Planned :
      (f : ParentStages) (deps : List Dependency) (p : Planner) (w : Walk)
      → Plans f
      → PlannedWalk p (some w)
      → PlannedWalk p (visit g f deps w)
  unfolding visit
  visit-Planned f [] p w plans a = a
  visit-Planned f (absent ∷ deps) p w plans a = visit-Planned f deps p w plans a
  visit-Planned f (narrow parent ∷ deps) p w plans a =
      visit-Planned f deps p (record w { stack = parent ∷ w.stack }) plans a
  visit-Planned f (shuffle sid n parent ∷ deps) p w plans (v, m, grows) =
      elim (Option-cases (get_shuffle_map_stage g f sid n parent w.planner)) [
        | inl e ↦ rw (e, visit) tt
        | inr ((id, q), e) ↦
            let (v', own, more) =
              subst (PlannedStage w.planner) e
                (get_shuffle_map_stage-Planned f sid n parent w.planner plans v) in
            rw (e, visit)
              (visit-Planned f deps p (record w { planner = q; ids = w.ids ++ id ∷ [] }) plans
                (
                  v',
                  All-append (IsMapStage q.stages) w.ids (id ∷ [])
                      (IsMapStages-Grows w.planner q w.ids more m) (own, tt),
                  Grows-trans p w.planner q grows more,
                ))
      ]

  if-PlannedIds :
      (b : Bool) (p : Planner) (x y : Option (List ℕ × Planner))
      → PlannedIds p x
      → PlannedIds p y
      → PlannedIds p (if b then x else y)
  if-PlannedIds true p x y h k = h
  if-PlannedIds false p x y h k = k

  resume-Planned :
      (p : Planner) (f : Walk → List ℕ → Option (List ℕ × Planner)) (r : Option Walk)
      → ((w : Walk) (stack : List ℕ) → PlannedWalk p (some w) → PlannedIds p (f w stack))
      → PlannedWalk p r
      → PlannedIds p (resume f r)
  resume-Planned p f none h a = tt
  resume-Planned p f (some w) h a = h w w.stack a

  walk-Planned :
      (fuel : ℕ) (p : Planner) (w : Walk) (stack : List ℕ)
      → PlannedWalk p (some w)
      → PlannedIds p (walk g fuel w stack)
  unfolding walk
  walk-Planned zero p w stack a = tt
  walk-Planned (suc fuel) p w [] a = a
  walk-Planned (suc fuel) p w (cur ∷ stack) a =
      if-PlannedIds _ p (walk g fuel w stack) _ (walk-Planned fuel p w stack a) (
        resume-Planned p (walk g fuel) _ (walk-Planned fuel p) (
          visit-Planned _ (g cur).dependencies p
            (record w {
              seen = if w.started then cur ∷ w.seen else w.seen;
              started = true;
              stack = stack;
            })
            (λ q rdd v. walk-Planned fuel q (start q) (rdd ∷ []) (v, tt, Grows-refl q)) a))

abbrev WaitingPlan : Option JobPlan → Type 0
WaitingPlan none = Unit
WaitingPlan (some plan) =
    Numbered 0 plan.stages
    × All (IsWaiting plan.stages) plan.stages
    × (plan.result_stage_id + 1 ≡ length plan.stages)

plan_rdd-WaitingPlan : (g : Lineage) (fuel rdd : ℕ) → WaitingPlan (plan_rdd g fuel rdd)
unfolding plan_rdd
plan_rdd-WaitingPlan g fuel rdd =
    let empty : Planner = record { shuffle_stages = []; stages = []; next_id = 0 } in
    let v : IsPlanned empty = record { numbered = tt; next = refl; waiting = tt; shuffles = tt } in
    elim (Option-cases (walk g fuel (start empty) (rdd ∷ []))) [
      | inl e ↦ rw (e, plan_rdd) tt
      | inr ((parents, p), e) ↦
          let (v', m, grows) =
            subst (PlannedIds empty) e
              (walk-Planned g fuel empty (start empty) (rdd ∷ []) (v, tt, Grows-refl empty)) in
          let (numbered, waiting) =
            IsWaiting-with p _ v' refl (All-unique_ints (IsMapStage p.stages) parents m) in
          rw (e, plan_rdd)
            (numbered, waiting, omega (arith, v'.next, length-append p.stages (_ ∷ [])))
    ]

-- If planning returns a plan, its stages are numbered by their places and wait only for earlier
-- stages, which are map stages; the result stage is the last one.
pub plan_rdd-IsWaiting :
    (g : Lineage) (fuel rdd : ℕ) (plan : JobPlan)
    → plan_rdd g fuel rdd ≡ some plan
    → Numbered 0 plan.stages
      × All (IsWaiting plan.stages) plan.stages
      × (plan.result_stage_id + 1 ≡ length plan.stages)
plan_rdd-IsWaiting g fuel rdd plan e = subst WaitingPlan e (plan_rdd-WaitingPlan g fuel rdd)
