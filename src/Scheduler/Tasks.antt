-- ===== src/Scheduler/Tasks.antt =====
-- scheduler.go: what the scheduler asks of the world, the tasks that it makes, and the results that it
-- accepts. What the workers, the context and the callbacks do is a parameter, a World.
use go_spark.Prelude.{
  ℕ, zero, suc, ◌+◌, Bool, false, Option, none, some, List, [], ◌∷◌, ◌++◌, get_or, if◌then◌else◌,
}
use go_spark.Prelude.Maps.{lookup, assign, nat_eq, pair_eq}
use go_spark.Prelude.Results.{Result, ok, err, ◌>>=◌}
use go_spark.Planner.{Stage}
use go_spark.Scheduler.{
  PartitionKey, Manifest, ExecResult, Task, FetchError, Job, Scheduler, Runners,
  validate_task_result, remember_worker_cache, pick_worker_index_for,
}
use go_spark.Scheduler.Recovery.{Accepted, RecoveryError, find_stage}

-- How a task ends; `lost` is an error that is a FetchError, and `failed` any other.
pub data Outcome : Type 0 where
  done : ExecResult → Outcome
  lost : FetchError → Outcome
  failed : Outcome

-- What the scheduler does not decide, at a time: whether the context is done, what the runners answer,
-- how a task ends on a worker, whether OnTaskComplete returns nil, what encodeRecordSlice gives,
-- and what the sum of two float64 numbers is.
pub record World : Type 0 where
  pub canceled : ℕ → Bool
  pub runners : ℕ → Runners
  pub exec : ℕ → ℕ → Task → Outcome
  pub on_task_complete : ℕ → Task → ExecResult → Bool
  pub encode : Option (List ℕ) → Option ℕ
  pub add_float : ℕ → ℕ → ℕ

-- Why a job fails. `nil_manifest` and `index_panic` are panics, and `out_of_fuel` is the model's own.
pub data JobError : Type 0 where
  canceled no_workers retries_exhausted hook_failed encode_failed missing_parent nil_manifest
        index_panic invalid_dag out_of_fuel not_for_saves bad_cache_identity unbound_accumulators
        negative_limit plan_failed no_random unknown_accumulator :
      JobError
  recovery : RecoveryError → JobError

abbrev pub Run {ℓ} : Type ℓ → Type ℓ
Run A = Result JobError A

-- Any call that asks the world takes its time.
abbrev pub tick : Scheduler → Scheduler
tick s = record s { clock = s.clock + 1 }

-- s.attempts[k]
abbrev pub attempts_of : PartitionKey → List (PartitionKey × ℕ) → ℕ
attempts_of k m = elim (lookup k m) [ none ↦ 0 | some n ↦ n ]

-- stageCacheHints
unfoldable pub stage_cache_hints : Job → Stage → ℕ → List PartitionKey
stage_cache_hints j st p = get_or (j.cache_hints st.id) p []

-- `*s.accepted[k].Manifest`: a nil pointer panics.
unfoldable pub manifest_of : Option ExecResult → Run Manifest
manifest_of none = err nil_manifest
manifest_of (some res) = elim res.manifest [ none ↦ err nil_manifest | some m ↦ ok m ]

-- The manifests of `c` partitions of a stage, from `p` on.
unfoldable pub stage_manifests : Accepted → ℕ → ℕ → ℕ → Run (List Manifest)
unfolding manifest_of
stage_manifests accepted id zero p = ok []
stage_manifests accepted id (suc c) p = do
  m ← manifest_of (lookup (id, p) accepted)
  ms ← stage_manifests accepted id c (p + 1)
  ok (m ∷ ms)

-- The loop that gathers `upstream` from the accepted results of the parents.
unfoldable pub upstream_of : List Stage → Accepted → List ℕ → Run (List Manifest)
unfolding stage_manifests find_stage
upstream_of stages accepted [] = ok []
upstream_of stages accepted (id ∷ parents) = do
  ms ← stage_manifests accepted id (find_stage stages id).num_partitions 0
  rest ← upstream_of stages accepted parents
  ok (ms ++ rest)

unfoldable pub bounds_of : ℕ → List (ℕ × ℕ) → Option ℕ
bounds_of id m = lookup id m

-- The task of a partition, with the attempts that were made so far as the number of this one.
unfoldable pub make_task : Job → Stage → ℕ → List Manifest → Scheduler → Task
unfolding bounds_of
make_task j st p upstream s = record {
  job_id = j.job_id;
  stage_id = st.id;
  partition_id = p;
  attempt = attempts_of (st.id, p) s.attempts;
  saves = j.saves;
  upstream = upstream;
  is_sample = false;
  range_bounds = bounds_of st.id s.bounds;
}

-- `s.attempts[k]++`
unfoldable pub count_attempt : Stage → ℕ → Scheduler → Scheduler
unfolding assign
count_attempt st p s = record s {
  attempts = assign (st.id, p) (attempts_of (st.id, p) s.attempts + 1) s.attempts;
}

-- `if err == nil { err = validateTaskResult(…) }`
unfoldable pub checked : Task → Stage → Outcome → Outcome
unfolding validate_task_result
checked t st (done res) = if validate_task_result t st res then done res else failed
checked t st (lost e) = lost e
checked t st failed = failed

module _ (w : World) (j : Job) where
  -- `if err := s.ctx.Err(); err != nil { return err }`
  unfoldable pub check_canceled : Scheduler → Run Scheduler
  check_canceled s = if w.canceled s.clock then err canceled else ok (tick s)

  unfoldable pub pick : List ℕ → Stage → ℕ → Scheduler → Scheduler × Option ℕ
  unfolding pick_worker_index_for stage_cache_hints
  pick used st p s =
      pick_worker_index_for (w.runners s.clock) j.num_runners used (stage_cache_hints j st p)
        (tick s)

  -- What the scheduler does with a result that it accepts.
  unfoldable pub accept_result : Stage → ℕ → Task → ExecResult → Scheduler → Run Scheduler
  unfolding remember_worker_cache assign
  accept_result st index t res s =
      let s' : Scheduler = record s {
        accepted = assign (st.id, t.partition_id) res s.accepted;
        cache_locations = remember_worker_cache index res.cached res.dropped s.cache_locations;
      } in
      if w.on_task_complete s.clock t res then ok (tick s') else err hook_failed
