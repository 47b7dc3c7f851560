-- ===== src/Tests/Scheduling.antt =====
-- A job of two stages whose first map output is lost, and a pool of two workers, one of them dead.
use go_spark.Prelude.{ltb, ℕ, ◌≡◌, ◌↔◌, refl, true, false, ◌==◌, none, some, [], ◌∷◌, arith}
use go_spark.Prelude.Maps.{nat_eq, pair_eq}
use go_spark.Planner.{shuffle_map}
use go_spark.Scheduler.{
  ExecResult, Task, FetchError, Job, Scheduler, Runners, validate_task_result,
  pick_worker_index_for,
}
use go_spark.Scheduler.Checks.{Answers, validate_task_result_iff}
use go_spark.Scheduler.Picking.{
  IsFit, IsUnfit, pick_worker_index_for-IsFit, pick_worker_index_for-none,
}
use go_spark.Scheduler.Recovery.{invalidate}
use go_spark.Scheduler.Recovery.Repairs.{
  IsReady, IsCounted, invalidate-IsReady, invalidate-IsCounted,
}
use go_spark.Tests.Planning.{count_map, count_result, count_waits}

abbrev pub count_job : Job
count_job = record {
  job_id = 5;
  saves = false;
  stages = count_map ∷ count_result ∷ [];
  result_stage_id = 1;
  num_runners = 2;
  max_attempts = 3;
  max_recoveries = 2;
  range_sort = λ id. false;
  cache_hints = λ id. [];
  sort_less = λ id. ltb;
  accumulator_context = none;
}

-- The result of the map task of a partition.
abbrev map_result : ℕ → ExecResult
map_result p = record {
  kind = shuffle_map;
  partition_id = p;
  manifest = some (record { job_id = 5; shuffle_id = 7; map_id = p; attempt = 0 });
  output = none;
  records = [];
  samples = [];
  accumulators = [];
  cached = [];
  dropped = [];
}

abbrev mapped : Scheduler
mapped = record {
  worker = 0;
  repairs = 0;
  accepted = ((0, 0), map_result 0) ∷ ((0, 1), map_result 1) ∷ [];
  attempts = [];
  cache_locations = [];
  worker_ids = [];
  sampled = [];
  bounds = [];
  totals = none;
  clock = 0;
}

abbrev lost_map : FetchError
lost_map = record { job_id = 5; shuffle_id = 7; map_id = 0; attempt = 0 }

-- The state after the repair.
abbrev repaired : Scheduler
repaired = record mapped { repairs = 1; accepted = ((0, 1), map_result 1) ∷ [] }

invalidate-IsCounted_example : IsCounted count_job lost_map count_result mapped repaired
unfolding invalidate
invalidate-IsCounted_example =
    invalidate-IsCounted count_job lost_map count_result mapped repaired refl

map_task : Task
map_task = record {
  job_id = 5;
  stage_id = 0;
  partition_id = 1;
  attempt = 0;
  saves = false;
  upstream = [];
  is_sample = false;
  range_bounds = none;
}

validate_task_result_iff_example :
    (validate_task_result map_task count_map (map_result 1) ≡ true)
    ↔ Answers map_task count_map (map_result 1)
validate_task_result_iff_example = validate_task_result_iff map_task count_map (map_result 1)

-- Worker 0 is dead, and worker 1 alive.
abbrev one_alive : Runners
one_alive = record { alive = λ index. index == 1; worker_id = λ index. 0 }

pick_worker_index_for-IsFit_example : IsFit one_alive 2 [] [] 1
unfolding pick_worker_index_for
pick_worker_index_for-IsFit_example =
    pick_worker_index_for-IsFit one_alive 2 [] [] mapped 1 (omega arith) refl

-- With worker 1 in use none is picked.
pick_worker_index_for-none_example : IsUnfit one_alive 2 (1 ∷ []) [] 0
unfolding pick_worker_index_for
pick_worker_index_for-none_example =
    pick_worker_index_for-none one_alive 2 (1 ∷ []) [] mapped 0 (omega arith) refl (omega arith)

mapped-IsReady : IsReady count_job.stages mapped.accepted
mapped-IsReady =
    (λ p q r parent lt h e at lt'. cc, (λ p q r parent lt h e at lt'. ground arith, tt))

invalidate-IsReady_example : IsReady count_job.stages repaired.accepted
unfolding invalidate
invalidate-IsReady_example =
    invalidate-IsReady count_job lost_map count_result mapped repaired
      ((refl, (refl, tt)), count_waits) mapped-IsReady refl
