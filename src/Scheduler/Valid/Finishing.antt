-- ===== src/Scheduler/Valid/Finishing.antt =====
-- scheduler.go: the results of scheduleResults; a round that does not end the job repairs, so that one
-- round more than the limit of repairs is enough.
use go_spark.Prelude.{
  ℕ, zero, suc, ◌+◌, ◌-◌, ◌*◌, ◌<◌, ◌≤◌, ◌≡◌, refl, subst, map, Option-cases, inl, inr, Bool, true,
  false, none, some, List, [], ◌∷◌, arith, length, get_elem?, All, All-imp,
}
use go_spark.Prelude.Maps.{lookup, nat_eq, pair_eq}
use go_spark.Prelude.Results.{ok, ◌>>=◌, Result-cases}
use go_spark.Order.{WeakOrder}
use go_spark.Accumulators.{AccumulatorSet, merge_accumulators}
use go_spark.Planner.{Stage}
use go_spark.Planner.Stages.{Numbered}
use go_spark.Planner.Ordered.{stage_by_id, ordered_stages, ordered_stages-Numbered}
use go_spark.Scheduler.{ExecResult, Job, Scheduler}
use go_spark.Scheduler.Recovery.{Accepted, find_stage}
use go_spark.Scheduler.Recovery.Ready.{has}
use go_spark.Scheduler.Recovery.Repairs.{IsDag, IsReadyStage}
use go_spark.Scheduler.Tasks.{World}
use go_spark.Scheduler.Jobs.{results_from, job_loop, start_job, merge_totals, run_job}
use go_spark.Scheduler.Gives.{Gives, Gives-ok, Gives-err, Gives->>=}
use go_spark.Scheduler.Valid.{IsAnswer, IsValid, Kept}
use go_spark.Scheduler.Valid.Accepting.{stage_by_id-Numbered}
use go_spark.Scheduler.Valid.Parents.{has-lookup, All-stage_by_id}
use go_spark.Scheduler.Valid.Retrying.{stage_fuel}
use go_spark.Scheduler.Valid.Scheduling.{IsRest, IsRound, run_stages-Rounds}

-- The accepted results of `c` partitions, from `p` on.
abbrev AreResults : Accepted → ℕ → ℕ → ℕ → List ExecResult → Type 0
AreResults m id c p l =
    (length l ≡ c)
    × ((i : ℕ) (res : ExecResult) → get_elem? l i ≡ some res → lookup (id, p + i) m ≡ some res)

AreResults-cons :
    (m : Accepted) (id c p : ℕ) (res : ExecResult) (l : List ExecResult)
    → lookup (id, p) m ≡ some res
    → AreResults m id c (p + 1) l
    → AreResults m id (suc c) p (res ∷ l)
AreResults-cons m id c p res l got (count, all) = (omega (arith, count), each)
  where
    each : (i : ℕ) (r : ExecResult) → get_elem? (res ∷ l) i ≡ some r → lookup (id, p + i) m ≡ some r
    each zero r e =
        let is : res ≡ r = cc in
        let place : p ≡ p + 0 = omega arith in
        subst (λ k. lookup (id, k) m ≡ some r) place (subst (λ x. lookup (id, p) m ≡ some x) is got)
    each (suc i) r e =
        let place : p + 1 + i ≡ p + suc i = omega arith in
        subst (λ k. lookup (id, k) m ≡ some r) place (all i r e)

results_from-cons :
    (m : Accepted) (id c p : ℕ) (res : ExecResult) (l : List ExecResult)
    → lookup (id, p) m ≡ some res
    → results_from m id c (p + 1) ≡ some l
    → results_from m id (suc c) p ≡ some (res ∷ l)
unfolding results_from
results_from-cons m id c p res l got e = ground (arith, got, e)

results_from-AreResults :
    (m : Accepted) (id c p : ℕ)
    → ((q : ℕ) → q < p + c → has (id, q) m ≡ true)
    → (l : List ExecResult) × (results_from m id c p ≡ some l) × AreResults m id c p l
unfolding results_from
results_from-AreResults m id zero p h = ([], refl, (refl, λ i res e. cc))
results_from-AreResults m id (suc c) p h =
    let (res, got) = has-lookup (id, p) m (h p (omega arith)) in
    let (l, e, are) = results_from-AreResults m id c (p + 1) (λ q lt. h q (omega (arith, lt))) in
    (res ∷ l, results_from-cons m id c p res l got e, AreResults-cons m id c p res l got are)

-- The results of a job: one for each partition of its last stage, in their order, each the result that
-- is accepted in a well-formed state, an answer to a counted task of its partition.
pub record IsComplete (j : Job) (last : Stage) (r : List ExecResult × Scheduler) : Type 0 where
  pub valid : IsValid j r.1
  pub count : length r.0 ≡ last.num_partitions
  pub answers : (p : ℕ) (res : ExecResult) → get_elem? r.0 p ≡ some res → IsAnswer j last r.1 p res

module _ (w : World) (j : Job) (last : Stage) (fuel : ℕ) (dag : IsDag j.stages)
    (at : stage_by_id last.id j.stages ≡ some last) (orders : (id : ℕ) → WeakOrder (j.sort_less id))
    (enough : length j.stages * stage_fuel j ≤ fuel) where
  all_stages : IsRest j 0 j.stages
  all_stages = record {
    numbered = dag.0;
    found = stage_by_id-Numbered j.stages dag.0;
    within = omega arith;
  }

  in_plan :
      (i : ℕ) (stages : List Stage)
      → Numbered i stages
      → All (λ st. st.id < i + length stages) stages
  in_plan i [] n = tt
  in_plan i (st ∷ stages) n = (
    omega (arith, n.0),
    All-imp _ _ stages (λ x lt. omega (arith, lt)) (in_plan (suc i) stages n.1),
  )

  IsAnswer-merged :
      (s : Scheduler) (totals : AccumulatorSet ℕ) (st : Stage) (p : ℕ) (res : ExecResult)
      → IsAnswer j st s p res
      → IsAnswer j st (record s { totals = some totals }) p res
  IsAnswer-merged s totals st p res (t, task, at, answers) = (
    t,
    record {
      of_job = task.of_job;
      of_stage = task.of_stage;
      saves = task.saves;
      counted = task.counted;
    },
    at,
    answers,
  )

  -- The merge of the accumulators changes nothing else.
  merged-IsComplete :
      (s : Scheduler) (l : List ExecResult)
      → IsComplete j last (l, s)
      → Gives (IsComplete j last) (merge_totals w j s >>= λ s'. ok (l, s'))
  unfolding merge_totals
  merged-IsComplete s l complete = elim (Option-cases s.totals) [
    | inl e ↦ rw (e, merge_totals) (Gives-ok complete)
    | inr (set, e) ↦
        elim (Result-cases
          (merge_accumulators 0 w.add_float (map (λ e. e.1.accumulators) s.accepted) set)) [
            | inl (merged, m) ↦
                rw (e, m, merge_totals)
                  (Gives-ok (record {
                    valid = record {
                      answers = λ st p res at' got.
                          IsAnswer-merged s merged st p res
                            (complete.valid.answers st p res at' got);
                      ready = complete.valid.ready;
                      within = complete.valid.within;
                    };
                    count = complete.count;
                    answers = λ p res got.
                        IsAnswer-merged s merged last p res (complete.answers p res got);
                  }))
            | inr (error, m) ↦ rw (e, m, merge_totals) (Gives-err tt)
          ]
  ]

  job_loop-IsComplete :
      (rounds : ℕ) (s : Scheduler)
      → IsValid j s
      → j.max_recoveries - s.repairs < rounds
      → Gives (IsComplete j last) (job_loop w j fuel rounds j.stages last s)
  unfolding job_loop
  job_loop-IsComplete zero s v few = absurd (omega (arith, few))
  job_loop-IsComplete (suc rounds) s v few =
      Gives->>= _
        (run_stages-Rounds w j dag orders fuel enough 0 j.stages s all_stages v
          (λ st at' lt. absurd (omega (arith, lt))))
        (λ r (kept, round).
          after r.0 r.1 kept round (λ fewer. job_loop-IsComplete rounds r.1 kept.0 fewer))
    where
      after :
          (repaired : Bool) (s' : Scheduler)
          → Kept j s s'
          → IsRound w j dag orders fuel enough (0 + length j.stages) s.repairs repaired s'
          → (j.max_recoveries - s'.repairs < rounds
              → Gives (IsComplete j last) (job_loop w j fuel rounds j.stages last s'))
          → Gives (IsComplete j last) (elim repaired [
            | true ↦ job_loop w j fuel rounds j.stages last s'
            | false ↦ elim (results_from s'.accepted last.id last.num_partitions 0) [
              | some results ↦ merge_totals w j s' >>= λ s''. ok (results, s'')
              | none ↦ job_loop w j fuel rounds j.stages last s'
            ]
          ])
      after true s' kept more again = again (omega (arith, few, more, kept.0.within))
      after false s' kept (same, all) again =
          let within : last.id < 0 + length j.stages =
            All-stage_by_id _ last.id j.stages last (in_plan 0 j.stages dag.0) at in
          let (l, e, (count, each)) =
            results_from-AreResults s'.accepted last.id last.num_partitions 0
              (λ q lt. all last at within q (omega (arith, lt))) in
          rw e (
            merged-IsComplete s' l (record {
              valid = kept.0;
              count = count;
              answers = λ p res got. kept.0.answers last p res at (
                  subst (λ k. lookup (last.id, k) s'.accepted ≡ some res) (omega arith)
                    (each p res got));
            }))

  IsReady-start : (stages : List Stage) → All (IsReadyStage j.stages []) stages
  IsReady-start [] = tt
  IsReady-start (st ∷ stages) = (λ p q r parent lt got. cc, IsReady-start stages)

  pub start_job-IsValid : IsValid j (start_job w j)
  start_job-IsValid = record {
    answers = λ st p res at' got. cc;
    ready = IsReady-start j.stages;
    within = omega arith;
  }

  pub run_job-IsComplete :
      find_stage j.stages j.result_stage_id ≡ last → Gives (IsComplete j last) (run_job w j fuel)
  unfolding run_job
  run_job-IsComplete is_last =
      let in_order : ordered_stages j.stages ≡ j.stages =
        ordered_stages-Numbered j.stages dag.0 dag.1 in
      rw (in_order, is_last)
        (job_loop-IsComplete (j.max_recoveries + 1) (start_job w j) start_job-IsValid (omega arith))
