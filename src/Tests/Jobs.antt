-- ===== src/Tests/Jobs.antt =====
-- Jobs of two stages on two workers: one without failures, one whose first map output is lost once, and
-- one whose result tasks always fail.
use go_spark.Prelude.{ℕ, ◌≡◌, refl, true, false, none, some, [], ◌∷◌, arith, ◌==◌, if◌then◌else◌}
use go_spark.Prelude.Maps.{nat_eq, pair_eq}
use go_spark.Prelude.Results.{ok, err, ◌>>=◌}
use go_spark.Accumulators.{int64}
use go_spark.Order.{WeakOrder, sort_stable}
use go_spark.Planner.{result, shuffle_map, sample}
use go_spark.Planner.Ordered.{stage_by_id}
use go_spark.Scheduler.{ExecResult, Job, Task}
use go_spark.Scheduler.Tasks.{
  World, Outcome, done, lost, failed, retries_exhausted, bad_cache_identity, unknown_accumulator,
}
use go_spark.Scheduler.Waves.{run_stage}
use go_spark.Scheduler.Retry.{ensure_retry}
use go_spark.Scheduler.Samples.{sample_stage}
use go_spark.Scheduler.Jobs.{Submission, limit, start_job, schedule}
use go_spark.Scheduler.Gives.{Gives}
use go_spark.Scheduler.Valid.{IsValid}
use go_spark.Scheduler.Valid.Retrying.{IsEnsured, ensure_retry-IsEnsured}
use go_spark.Scheduler.Valid.Running.{IsRun, run_stage-IsRun}
use go_spark.Scheduler.Valid.Finishing.{start_job-IsValid}
use go_spark.Tests.Planning.{count_plan, count_map, count_result, count_waits}
use go_spark.Tests.Scheduling.{count_job}

-- What a task gives that does not fail: a map result with its manifest, or the partition's number.
abbrev answer : Task → ExecResult
answer t = record {
  kind = if t.stage_id == 0 then shuffle_map else result;
  partition_id = t.partition_id;
  manifest =
      if t.stage_id == 0
      then some
          (record { job_id = 5; shuffle_id = 7; map_id = t.partition_id; attempt = t.attempt })
      else none;
  output = none;
  records = t.partition_id ∷ [];
  samples = [];
  accumulators = [];
  cached = [];
  dropped = [];
}

abbrev world_of : (ℕ → ℕ → Task → Outcome) → World
world_of exec = record {
  canceled = λ clock. false;
  runners = λ clock. record { alive = λ index. true; worker_id = λ index. 0 };
  exec = exec;
  on_task_complete = λ clock t res. true;
  encode = λ bounds. some 0;
  add_float = λ a b. a;
}

abbrev pub calm : World
calm = world_of (λ clock index t. done (answer t))

-- The first result task does not find the output of the first map.
abbrev losing : World
losing = world_of (λ clock index t.
    if t.stage_id == 1
    then (if t.partition_id == 0
        then (if t.attempt == 0
            then lost (record { job_id = 5; shuffle_id = 7; map_id = 0; attempt = 0 })
            else done (answer t))
        else done (answer t))
    else done (answer t))

abbrev failing : World
failing = world_of (λ clock index t. if t.stage_id == 1 then failed else done (answer t))

-- Limits of 0 take their defaults.
abbrev pub count_submission : Submission
count_submission = record {
  cache_identity = 97 ∷ 45 ∷ [];
  accumulators = [];
  max_attempts = limit 0;
  max_recoveries = limit 0;
  plan = some count_plan;
  random = some 4;
  has_path = false;
}

calm_records : schedule calm count_submission count_job 12 ≡ ok (0 ∷ 1 ∷ 2 ∷ [])
unfolding schedule
calm_records = refl

losing_records : schedule losing count_submission count_job 12 ≡ ok (0 ∷ 1 ∷ 2 ∷ [])
unfolding schedule
losing_records = refl

failing_exhausts : schedule failing count_submission count_job 12 ≡ err retries_exhausted
unfolding schedule
failing_exhausts = refl

-- A result with an accumulator that the driver does not have.
abbrev adding : World
adding = world_of (λ clock index t. done (record (answer t) {
  accumulators = (97 ∷ [], record { kind = int64; int64_value = 1; float64_value = 0 }) ∷ [];
}))

abbrev bound_job : Job
bound_job = record count_job {
  accumulator_context = some (record { values = []; task = false; declared = false });
}

adding_fails : schedule adding count_submission bound_job 12 ≡ err unknown_accumulator
unfolding schedule
adding_fails = refl

refused_identity :
    schedule calm (record count_submission { cache_identity = 47 ∷ [] }) count_job 12
    ≡ err bad_cache_identity
unfolding schedule
refused_identity = refl

pub count_order : (id : ℕ) → WeakOrder (count_job.sort_less id)
count_order id = record {
  irrefl = λ a. ground arith;
  trans = λ a b c h k. ground arith;
  negtrans = λ a b c h k. ground arith;
}

started-IsValid : IsValid count_job (start_job losing count_job)
unfolding stage_by_id
started-IsValid =
    start_job-IsValid losing count_job count_result 12 ((refl, (refl, tt)), count_waits) refl
      count_order (omega arith)

run_stage-IsRun_example :
    Gives
      (IsRun count_job count_map (start_job losing count_job))
      (run_stage losing count_job 12 count_map (start_job losing count_job))
unfolding stage_by_id
run_stage-IsRun_example =
    run_stage-IsRun losing count_job ((refl, (refl, tt)), count_waits) 12 count_map refl
      (omega arith) (start_job losing count_job) started-IsValid (λ q r parent in_parents. cc)

ensure_retry-IsEnsured_example :
    Gives
      (IsEnsured count_job count_result 0 (start_job losing count_job))
      (ensure_retry losing count_job 12 count_result 0 0 (start_job losing count_job))
unfolding stage_by_id
ensure_retry-IsEnsured_example =
    ensure_retry-IsEnsured losing count_job ((refl, (refl, tt)), count_waits) 12 count_result 0 0
      (start_job losing count_job) refl started-IsValid (omega arith)

-- A job whose map stage is sampled: each task answers with its partition as a sample.
abbrev sort_job : Job
sort_job = record count_job { range_sort = λ id. id == 0 }

abbrev sampling : World
sampling = world_of (λ clock index t. done (record (answer t) {
  kind = if t.is_sample then sample else (answer t).kind;
  samples = t.partition_id ∷ [];
}))

bounds_set :
    (sample_stage sampling sort_job count_map (start_job sampling sort_job) >>= λ s. ok s.sampled)
    ≡ ok (0 ∷ [])
unfolding sample_stage sort_stable
bounds_set = refl
