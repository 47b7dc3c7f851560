-- ===== src/Scheduler/Valid/Scheduling.antt =====
-- scheduler.go: scheduleResults against the state; a round that does not end the job repairs, so that
-- one round more than the limit of repairs is enough.
use go_spark.Prelude.{
  ℕ, suc, ◌+◌, ◌*◌, ◌<◌, ◌≤◌, ◌≡◌, refl, subst, Bool, Bool-cases, inl, inr, true, false, not, ◌&&◌,
  some, List, [], ◌∷◌, arith, ◌==◌, length, All, dec_lt,
}
use native.Mathlib.Nat.{mul-le-mul_right}
use go_spark.Prelude.Maps.{contains, nat_eq, pair_eq}
use go_spark.Prelude.Results.{ok}
use go_spark.Order.{WeakOrder}
use go_spark.Planner.{Stage}
use go_spark.Planner.Stages.{Numbered}
use go_spark.Planner.Ordered.{stage_by_id}
use go_spark.Scheduler.{Job, Scheduler}
use go_spark.Scheduler.Recovery.{Accepted}
use go_spark.Scheduler.Recovery.Ready.{has}
use go_spark.Scheduler.Recovery.Repairs.{IsDag}
use go_spark.Scheduler.Tasks.{World}
use go_spark.Scheduler.Jobs.{sample_first, run_stages}
use go_spark.Scheduler.Gives.{Gives, Gives-ok, Gives->>=, Gives-if, Gives-imp}
use go_spark.Scheduler.Valid.{IsValid, Later, Kept, Later-refl, Later-trans, Kept-trans}
use go_spark.Scheduler.Valid.Accepting.{HasParents, HasParents-Later}
use go_spark.Scheduler.Valid.Parents.{find-IsParent}
use go_spark.Scheduler.Valid.Retrying.{stage_fuel}
use go_spark.Scheduler.Valid.Running.{HasBefore, IsRun, run_stage-IsRun}
use go_spark.Scheduler.Valid.Pooling.{sample_stage-IsSampled}

-- All partitions are accepted of the stages of the plan that come before the place `i`.
abbrev pub StagesBefore : Job → ℕ → Accepted → Type 0
StagesBefore j i m =
    (st : Stage)
    → stage_by_id st.id j.stages ≡ some st
    → st.id < i
    → HasBefore st st.num_partitions m

HasParents-StagesBefore :
    (j : Job) (st : Stage) (i : ℕ) (m : Accepted)
    → IsDag j.stages
    → stage_by_id st.id j.stages ≡ some st
    → st.id ≤ i
    → StagesBefore j i m
    → HasParents j.stages m st
HasParents-StagesBefore j st i m dag at le all q r parent in_parents found lt =
    let (parent', found', same, (by_id, before, map)) =
      find-IsParent j.stages st dag at q in_parents in
    let is : parent ≡ parent' = cc in
    subst (λ n. has (n, r) m ≡ true) same
      (all parent' by_id (omega (arith, before, le)) r (subst (λ x. r < x.num_partitions) is lt))

-- The stages of the plan that a round has still to visit.
pub record IsRest (j : Job) (i : ℕ) (stages : List Stage) : Type 0 where
  pub numbered : Numbered i stages
  pub found : All (λ st. stage_by_id st.id j.stages ≡ some st) stages
  pub within : i + length stages ≡ length j.stages

module _ (w : World) (j : Job) (dag : IsDag j.stages)
    (orders : (id : ℕ) → WeakOrder (j.sort_less id)) (fuel : ℕ)
    (enough : length j.stages * stage_fuel j ≤ fuel) where
  -- A round stops at a repair, or all the stages are accepted.
  abbrev pub IsRound : ℕ → ℕ → Bool → Scheduler → Type 0
  IsRound i repairs true s' = repairs < s'.repairs
  IsRound i repairs false s' = (s'.repairs ≡ repairs) × StagesBefore j i s'.accepted

  sample_first-Kept :
      (st : Stage) (s : Scheduler)
      → stage_by_id st.id j.stages ≡ some st
      → IsValid j s
      → HasParents j.stages s.accepted st
      → Gives (Kept j s) (sample_first w j st s)
  unfolding sample_first
  sample_first-Kept st s at v parents =
      Gives-if (j.range_sort st.id && not (contains st.id s.sampled)) _ _
        (λ e.
          Gives-imp (sample_stage-IsSampled w j dag st at s (orders st.id) v parents) (λ s' h. h.0))
        (λ e. Gives-ok (v, Later-refl s))

  StagesBefore-IsRun :
      (st : Stage) (i : ℕ) (s s' : Scheduler)
      → st.id ≡ i
      → stage_by_id st.id j.stages ≡ some st
      → Later s s'
      → s'.repairs ≡ s.repairs
      → StagesBefore j i s.accepted
      → HasBefore st st.num_partitions s'.accepted
      → StagesBefore j (i + 1) s'.accepted
  StagesBefore-IsRun st i s s' id at later same before run st' at' lt q lt' =
      elim (dec_lt st'.id i) [
        | yes earlier ↦ later.stays same (st'.id, q) (before st' at' earlier q lt')
        | no here ↦
            let this : st.id ≡ st'.id = omega (arith, here, lt, id) in
            let found : stage_by_id st'.id j.stages ≡ some st =
              subst (λ n. stage_by_id n j.stages ≡ some st) this at in
            let is : st ≡ st' = cc in
            subst (λ x. HasBefore x x.num_partitions s'.accepted) is run q lt'
      ]

  abbrev pub Rounds : ℕ → ℕ → Scheduler → Bool × Scheduler → Type 0
  Rounds i n s r = Kept j s r.1 × IsRound (i + n) s.repairs r.0 r.1

  after_stage :
      (st : Stage) (i n : ℕ) (stages : List Stage) (s s1 s2 : Scheduler)
      → st.id ≡ i
      → stage_by_id st.id j.stages ≡ some st
      → Kept j s s1
      → s1.repairs ≡ s.repairs
      → IsRun j st s1 s2
      → StagesBefore j i s.accepted
      → ((s3 : Scheduler)
          → IsValid j s3
          → StagesBefore j (i + 1) s3.accepted
          → Gives (Rounds (i + 1) n s3) (run_stages w j fuel stages s3))
      → Gives (Rounds i (suc n) s) (elim (s2.repairs == s.repairs) [
        | false ↦ ok (true, s2)
        | true ↦ run_stages w j fuel stages s2
      ])
  after_stage st i n stages s s1 s2 id at kept same (kept', all) before rest =
      let later : Later s s2 = Later-trans kept.1 kept'.1 in
      elim (Bool-cases (s2.repairs == s.repairs)) [
        | inl unrepaired ↦
            let same2 : s2.repairs ≡ s.repairs = ground (arith, unrepaired) in
            let place : i + 1 + n ≡ i + suc n = omega arith in
            rw unrepaired (
              Gives-imp
                (rest s2 kept'.0 (
                  StagesBefore-IsRun st i s s2 id at later same2 before
                    (all (omega (arith, same, same2)))))
                (λ r (kept3, round). (
                  Kept-trans j later kept3,
                  subst (λ k. IsRound k s.repairs r.0 r.1) place
                      (subst (λ k. IsRound (i + 1 + n) k r.0 r.1) same2 round),
                )))
        | inr changed ↦
            let more : s.repairs < s2.repairs = ground (arith, changed, later.repairs) in
            rw changed (Gives-ok ((kept'.0, later), more))
      ]

  pub run_stages-Rounds :
      (i : ℕ) (stages : List Stage) (s : Scheduler)
      → IsRest j i stages
      → IsValid j s
      → StagesBefore j i s.accepted
      → Gives (Rounds i (length stages) s) (run_stages w j fuel stages s)
  unfolding run_stages
  run_stages-Rounds i [] s rest v before =
      let place : i ≡ i + 0 = omega arith in
      Gives-ok ((v, Later-refl s), (refl, subst (λ k. StagesBefore j k s.accepted) place before))
  run_stages-Rounds i (st ∷ stages) s rest v before =
      let id : st.id ≡ i = rest.numbered.0 in
      let at : stage_by_id st.id j.stages ≡ some st = rest.found.0 in
      let parents : HasParents j.stages s.accepted st =
        HasParents-StagesBefore j st i s.accepted dag at (omega (arith, id)) before in
      let in_plan : st.id + 1 ≤ length j.stages = omega (arith, id, rest.within) in
      let fuelled : (st.id + 1) * stage_fuel j ≤ fuel =
        omega (arith, mul-le-mul_right (stage_fuel j) in_plan, enough) in
      let rest' : IsRest j (i + 1) stages = record {
        numbered = subst (λ k. Numbered k stages) (omega arith) rest.numbered.1;
        found = rest.found.1;
        within = omega (arith, rest.within);
      } in
      Gives->>= _ (sample_first-Kept st s at v parents) (λ s1 kept.
        elim (Bool-cases (s1.repairs == s.repairs)) [
          | inr changed ↦
              let more : s.repairs < s1.repairs = ground (arith, changed, kept.1.repairs) in
              rw changed (Gives-ok (kept, more))
          | inl unrepaired ↦
              let same : s1.repairs ≡ s.repairs = ground (arith, unrepaired) in
              rw unrepaired (
                Gives->>= _
                  (run_stage-IsRun w j dag fuel st at fuelled s1 kept.0
                    (HasParents-Later j.stages st kept.1 same parents))
                  (λ s2 run.
                    after_stage st i (length stages) stages s s1 s2 id at kept same run before
                      (λ s3 v3 before3. run_stages-Rounds (i + 1) stages s3 rest' v3 before3)))
        ])
