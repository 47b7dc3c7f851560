-- ===== src/Scheduler/Samples.antt =====
-- scheduler.go: sampleStage, which samples the input of a range sort wave by wave and chooses its
-- bounds.
use go_spark.Prelude.{
  ℕ, zero, suc, ◌+◌, ◌-◌, ◌==◌, leb, true, ◌&&◌, Option, none, some, List, [], ◌∷◌, if◌then◌else◌,
  length,
}
use go_spark.Prelude.Maps.{assign, nat_eq}
use go_spark.Prelude.Results.{ok, err, ◌>>=◌}
use go_spark.Planner.{Stage, sample}
use go_spark.RangeSort.{append_sort_samples, select_range_bounds}
use go_spark.Scheduler.{
  Manifest, ExecResult, Task, Job, Scheduler, StageKind_beq, remember_worker_cache,
}
use go_spark.Scheduler.Recovery.{invalidate}
use go_spark.Scheduler.Tasks.{
  Outcome, done, lost, failed, World, no_workers, retries_exhausted, encode_failed, index_panic,
  out_of_fuel, Run, tick, upstream_of, check_canceled, pick,
}
use go_spark.Scheduler.Retry.{recovered}
use go_spark.Scheduler.Waves.{Completion, Wave, add_task, run_tasks}

-- `samples` and `seen`
abbrev pub Pool : Type 0
Pool = List ℕ × ℕ

-- sampleTask, given the manifests of the parents.
unfoldable pub sample_task : Job → Stage → ℕ → ℕ → List Manifest → Task
sample_task j st p attempt upstream = record {
  job_id = j.job_id;
  stage_id = st.id;
  partition_id = p;
  attempt = attempt;
  saves = j.saves;
  upstream = upstream;
  is_sample = true;
  range_bounds = none;
}

-- `err == nil && (res.Kind != StageSample || res.PartitionID != …)` is a failure, too.
unfoldable pub checked_sample : Task → Outcome → Outcome
unfolding StageKind_beq
checked_sample t (done res) =
    if StageKind_beq res.kind sample && res.partition_id == t.partition_id then done res else failed
checked_sample t (lost e) = lost e
checked_sample t failed = failed

-- A partition is sampled by a worker, or a failure of its input was repaired.
pub data Sampled : Type 0 where
  sampled_by : ExecResult → ℕ → Sampled
  repaired : Sampled

module _ (w : World) (j : Job) where
  -- The loop that fills a wave, with `c` partitions left, from `p` on.
  unfoldable pub gather_samples : Stage → ℕ → ℕ → List ℕ → Scheduler → Run (Wave × Scheduler)
  unfolding pick upstream_of sample_task add_task
  gather_samples st zero p used s = ok (record { tasks = []; next = p }, s)
  gather_samples st (suc c) p used s =
      let (s1, picked) = pick w j used st p s in
      let fill : Run (Wave × Scheduler) = elim picked [
        | none ↦ ok (record { tasks = []; next = p }, s1)
        | some index ↦ upstream_of j.stages s1.accepted st.parents >>= λ upstream.
            gather_samples st c (p + 1) (index ∷ used) s1 >>= λ r.
            ok (add_task (sample_task j st p 0 upstream) index r)
      ] in
      if leb j.num_runners (length used) then ok (record { tasks = []; next = p }, s) else fill

  -- The loop over further attempts, `c` of them, from the given number on.
  unfoldable pub sample_again : ℕ → ℕ → Stage → ℕ → Scheduler → Run (Sampled × Scheduler)
  unfolding pick upstream_of sample_task checked_sample recovered invalidate
  sample_again zero attempt st p s = err retries_exhausted
  sample_again (suc c) attempt st p s =
      let (s1, picked) = pick w j [] st p s in
      elim picked [
        | none ↦ err no_workers
        | some index ↦ upstream_of j.stages s1.accepted st.parents >>= λ upstream.
            elim (checked_sample (sample_task j st p attempt upstream)
              (w.exec s1.clock index (sample_task j st p attempt upstream))) [
                | done res ↦ ok (sampled_by res index, tick s1)
                | lost e ↦ recovered (invalidate j e st (tick s1)) >>= λ s2. ok (repaired, s2)
                | failed ↦ sample_again c (attempt + 1) st p (tick s1)
              ]
      ]

  unfoldable pub sample_completed : Stage → Completion → Scheduler → Run (Sampled × Scheduler)
  unfolding checked_sample recovered invalidate sample_again
  sample_completed st c s = elim (checked_sample c.task c.outcome) [
    | done res ↦ ok (sampled_by res c.worker, s)
    | lost e ↦ recovered (invalidate j e st s) >>= λ s'. ok (repaired, s')
    | failed ↦ sample_again (j.max_attempts - 1) 1 st c.task.partition_id s
  ]

  -- The completions of a wave, in order; `none` once a failure was repaired.
  unfoldable pub sample_all :
      Stage → List Completion → Pool → Scheduler → Run (Option Pool × Scheduler)
  unfolding sample_completed append_sort_samples remember_worker_cache
  sample_all st [] pool s = ok (some pool, s)
  sample_all st (c ∷ cs) pool s = sample_completed st c s >>= λ r. elim r.0 [
    | repaired ↦ ok (none, r.1)
    | sampled_by res index ↦
        sample_all st cs (append_sort_samples pool.0 res.samples pool.1) (record r.1 {
          cache_locations = remember_worker_cache index res.cached res.dropped r.1.cache_locations;
        })
  ]

  -- The waves, `c` of them at most, from the partition `p` on.
  unfoldable pub sample_loop : ℕ → Stage → ℕ → Pool → Scheduler → Run (Option Pool × Scheduler)
  unfolding gather_samples run_tasks sample_all check_canceled
  sample_loop zero st p pool s =
      if leb st.num_partitions p then ok (some pool, s) else err out_of_fuel
  sample_loop (suc c) st p pool s =
      if leb st.num_partitions p
      then ok (some pool, s)
      else (check_canceled w j s >>= λ s0.
          gather_samples st (st.num_partitions - p) p [] s0 >>= λ g. elim g.0.tasks [
            | [] ↦ err no_workers
            | ◌∷◌ t ts ↦
                check_canceled w j (record g.1 { clock = g.1.clock + length (t ∷ ts) }) >>= λ s1.
                sample_all st (run_tasks w j g.1.clock (t ∷ ts)) pool s1 >>= λ r. elim r.0 [
                  | none ↦ ok (none, r.1)
                  | some pool' ↦ sample_loop c st g.0.next pool' r.1
                ]
          ])

  -- The bounds, encoded.
  unfoldable pub set_bounds : Stage → Pool → Scheduler → Run Scheduler
  unfolding select_range_bounds assign
  set_bounds st pool s = elim (select_range_bounds (j.sort_less st.id) pool.0 st.num_reducers) [
    | none ↦ err index_panic
    | some bounds ↦ elim (w.encode bounds) [
      | none ↦ err encode_failed
      | some blob ↦
          ok (record s { bounds = assign st.id blob s.bounds; sampled = st.id ∷ s.sampled })
    ]
  ]

  -- sampleStage
  unfoldable pub sample_stage : Stage → Scheduler → Run Scheduler
  unfolding sample_loop set_bounds
  sample_stage st s = sample_loop st.num_partitions st 0 ([], 0) s >>= λ r. elim r.0 [
    | none ↦ ok r.1
    | some pool ↦ set_bounds st pool r.1
  ]
