-- ===== src/Scheduler/Waves.antt =====
-- scheduler.go: runStage, which runs the tasks of a stage wave by wave, and sampleStage, which samples
-- its input so. The tasks of a wave run at once; what they give is taken in the order of their
-- partitions.
use go_spark.Prelude.{
  ℕ, zero, suc, ◌+◌, ◌-◌, ◌==◌, leb, none, some, List, [], ◌∷◌, if◌then◌else◌, length,
}
use go_spark.Prelude.Maps.{lookup, nat_eq, pair_eq}
use go_spark.Prelude.Results.{ok, err, ◌>>=◌}
use go_spark.Planner.{Stage}
use go_spark.Scheduler.{Task, Job, Scheduler}
use go_spark.Scheduler.Recovery.{invalidate}
use go_spark.Scheduler.Tasks.{
  Outcome, done, lost, failed, World, no_workers, retries_exhausted, out_of_fuel, Run, upstream_of,
  make_task, count_attempt, checked, check_canceled, pick, accept_result,
}
use go_spark.Scheduler.Retry.{recovered, ensure_retry}

-- A taskCompletion: the task, its worker and its outcome.
pub record Completion : Type 0 where
  pub task : Task
  pub worker : ℕ
  pub outcome : Outcome

-- A wave: its tasks with their workers, and the partition that is next.
pub record Wave : Type 0 where
  pub tasks : List (Task × ℕ)
  pub next : ℕ

-- What follows a wave: the next one, or the end of the stage.
pub data Progress : Type 0 where
  go_on stop : Progress

unfoldable pub add_task : Task → ℕ → Wave × Scheduler → Wave × Scheduler
add_task t index r = (record { tasks = (t, index) ∷ r.0.tasks; next = r.0.next }, r.1)

module _ (w : World) (j : Job) where
  -- The loop that fills a wave, with `c` partitions left, from `p` on: at most one task for each
  -- runner, none for a partition that is accepted.
  unfoldable pub gather : Stage → ℕ → ℕ → List ℕ → Scheduler → Run (Wave × Scheduler)
  unfolding pick upstream_of make_task count_attempt add_task
  gather st zero p used s = ok (record { tasks = []; next = p }, s)
  gather st (suc c) p used s =
      let skip = gather st c (p + 1) used s in
      let (s1, picked) = pick w j used st p s in
      let fill : Run (Wave × Scheduler) = elim picked [
        | none ↦ ok (record { tasks = []; next = p }, s1)
        | some index ↦ upstream_of j.stages s1.accepted st.parents >>= λ upstream.
            gather st c (p + 1) (index ∷ used) (count_attempt st p s1) >>= λ r.
            ok (add_task (make_task j st p upstream s1) index r)
      ] in
      if leb j.num_runners (length used)
      then ok (record { tasks = []; next = p }, s)
      else elim (lookup (st.id, p) s.accepted) [ some res ↦ skip | none ↦ fill ]

  -- The tasks of a wave end.
  unfoldable pub run_tasks : ℕ → List (Task × ℕ) → List Completion
  run_tasks clock [] = []
  run_tasks clock ((t, index) ∷ tasks) =
      record { task = t; worker = index; outcome = w.exec clock index t }
      ∷ run_tasks (clock + 1) tasks

  -- One completion of a wave of runStage; `before` is `beforeRepair`.
  unfoldable pub complete : ℕ → ℕ → Stage → Completion → Scheduler → Run (Progress × Scheduler)
  unfolding accept_result checked recovered invalidate ensure_retry
  complete fuel before st c s = elim (checked c.task st c.outcome) [
    | done res ↦ accept_result w j st c.worker c.task res s >>= λ s'. ok (go_on, s')
    | lost e ↦ recovered (invalidate j e st s) >>= λ s'. ok (stop, s')
    | failed ↦
        if j.max_attempts == 1
        then err retries_exhausted
        else (ensure_retry w j fuel st c.task.partition_id 1 s >>= λ r.
            ok (if r.1.repairs == before then go_on else stop, r.1))
  ]

  unfoldable pub complete_all :
      ℕ → ℕ → Stage → List Completion → Scheduler → Run (Progress × Scheduler)
  unfolding complete
  complete_all fuel before st [] s = ok (if s.repairs == before then go_on else stop, s)
  complete_all fuel before st (c ∷ cs) s = complete fuel before st c s >>= λ r. elim r.0 [
    | stop ↦ ok (stop, r.1)
    | go_on ↦ complete_all fuel before st cs r.1
  ]

  -- The loop of runStage, `c` waves at most, from the partition `p` on. A wave takes at least one
  -- partition.
  unfoldable pub wave_loop : ℕ → ℕ → Stage → ℕ → Scheduler → Run Scheduler
  unfolding gather run_tasks complete_all check_canceled
  wave_loop fuel zero st p s = if leb st.num_partitions p then ok s else err out_of_fuel
  wave_loop fuel (suc c) st p s =
      if leb st.num_partitions p
      then ok s
      else (check_canceled w j s >>= λ s0. gather st (st.num_partitions - p) p [] s0 >>= λ g.
          elim g.0.tasks [
            | [] ↦ if g.0.next == st.num_partitions then ok g.1 else err no_workers
            | ◌∷◌ t ts ↦
                check_canceled w j (record g.1 { clock = g.1.clock + length (t ∷ ts) }) >>= λ s1.
                complete_all fuel s0.repairs st (run_tasks g.1.clock (t ∷ ts)) s1 >>= λ r.
                elim r.0 [ stop ↦ ok r.1 | go_on ↦ wave_loop fuel c st g.0.next r.1 ]
          ])

  -- runStage
  unfoldable pub run_stage : ℕ → Stage → Scheduler → Run Scheduler
  unfolding wave_loop
  run_stage fuel st s = wave_loop fuel st.num_partitions st 0 s
