-- ===== src/Scheduler/Retry.antt =====
-- scheduler.go: ensure and ensureRetry, which run the task of a partition until it is accepted, its
-- parents first.
use go_spark.Prelude.{
  ℕ, zero, suc, ◌+◌, ◌==◌, leb, true, false, none, some, List, [], ◌∷◌, ◌++◌, if◌then◌else◌,
}
use go_spark.Prelude.Maps.{lookup, nat_eq, pair_eq}
use go_spark.Prelude.Results.{Result, ok, err, ◌>>=◌}
use go_spark.Planner.{Stage}
use go_spark.Planner.Ordered.{stage_by_id}
use go_spark.Scheduler.{Manifest, ExecResult, Task, Job, Scheduler}
use go_spark.Scheduler.Recovery.{RecoveryError, invalidate}
use go_spark.Scheduler.Tasks.{
  Outcome, done, lost, failed, World, no_workers, retries_exhausted, missing_parent, out_of_fuel,
  recovery, Run, tick, manifest_of, make_task, count_attempt, checked, check_canceled, pick,
  accept_result,
}

-- What follows an attempt: the result is accepted, or another attempt with the failures so far.
pub data Attempted : Type 0 where
  finished : ExecResult → Attempted
  again : ℕ → Attempted

unfoldable pub recovered : Result RecoveryError Scheduler → Run Scheduler
recovered (ok s) = ok s
recovered (err e) = err (recovery e)

abbrev pub Ensure : Type 0
Ensure = Stage → ℕ → Scheduler → Run (ExecResult × Scheduler)

-- The manifests of `c` partitions of a parent, from `p` on; each partition is ensured.
unfoldable pub ensure_partitions :
    Ensure → Stage → ℕ → ℕ → Scheduler → Run (List Manifest × Scheduler)
unfolding manifest_of
ensure_partitions ensure parent zero p s = ok ([], s)
ensure_partitions ensure parent (suc c) p s = ensure parent p s >>= λ r.
    manifest_of (some r.0) >>= λ m.
    ensure_partitions ensure parent c (p + 1) r.1 >>= λ rest. ok (m ∷ rest.0, rest.1)

unfoldable pub ensure_parents :
    Ensure → List Stage → List ℕ → Scheduler → Run (List Manifest × Scheduler)
unfolding ensure_partitions stage_by_id
ensure_parents ensure stages [] s = ok ([], s)
ensure_parents ensure stages (id ∷ parents) s = elim (stage_by_id id stages) [
  | none ↦ err missing_parent
  | some parent ↦ ensure_partitions ensure parent parent.num_partitions 0 s >>= λ r.
      ensure_parents ensure stages parents r.1 >>= λ rest. ok (r.0 ++ rest.0, rest.1)
]

module _ (w : World) (j : Job) where
  -- After the task ran on a worker.
  unfoldable pub settle : Stage → ℕ → ℕ → Task → Outcome → Scheduler → Run (Attempted × Scheduler)
  unfolding accept_result recovered invalidate
  settle st failures index t (done res) s =
      accept_result w j st index t res s >>= λ s'. ok (finished res, s')
  settle st failures index t (lost e) s =
      recovered (invalidate j e st s) >>= λ s'. ok (again failures, s')
  settle st failures index t failed s =
      if leb j.max_attempts (failures + 1)
      then err retries_exhausted
      else ok (again (failures + 1), s)

  -- Once the parents are there: the task, a worker for it, and its outcome.
  unfoldable pub attempt_task :
      Stage → ℕ → ℕ → List Manifest → Scheduler → Run (Attempted × Scheduler)
  unfolding settle make_task count_attempt pick checked check_canceled
  attempt_task st p failures upstream s =
      let t = make_task j st p upstream s in
      let (s1, picked) = pick w j [] st p (count_attempt st p s) in
      elim picked [
        | none ↦ err no_workers
        | some index ↦ check_canceled w j (tick s1) >>= λ s2.
            settle st failures index t (checked t st (w.exec s1.clock index t)) s2
      ]

  -- The loop of ensureRetry. A unit of fuel for each round, and what is left of it for the parents.
  unfoldable pub retry_loop : ℕ → Stage → ℕ → ℕ → Scheduler → Run (ExecResult × Scheduler)
  unfolding attempt_task ensure_parents
  retry_loop zero st p failures s = err out_of_fuel
  retry_loop (suc fuel) st p failures s = check_canceled w j s >>= λ s0.
      ensure_parents
        (λ parent q s'. elim (lookup (parent.id, q) s'.accepted) [
          | some res ↦ ok (res, s')
          | none ↦ retry_loop fuel parent q 0 s'
        ])
        j.stages st.parents s0
      >>= λ r. elim (r.1.repairs == s0.repairs) [
        | false ↦ retry_loop fuel st p failures r.1
        | true ↦ attempt_task st p failures r.0 r.1 >>= λ n. elim n.0 [
          | finished res ↦ ok (res, n.1)
          | again failures' ↦ retry_loop fuel st p failures' n.1
        ]
      ]

  -- ensureRetry
  unfoldable pub ensure_retry : ℕ → Stage → ℕ → ℕ → Scheduler → Run (ExecResult × Scheduler)
  unfolding retry_loop
  ensure_retry fuel st p failures s = elim (lookup (st.id, p) s.accepted) [
    | some res ↦ ok (res, s)
    | none ↦ retry_loop fuel st p failures s
  ]
