-- ===== src/Tests/Committing.antt =====
-- A job that saves one partition, and commits of its output to one path.
use go_spark.Prelude.{
  ℕ, ◌+◌, ◌*◌, ◌≡◌, ltb, refl, true, false, Option, none, some, List, [], ◌∷◌, length, All,
  replicate,
}
use go_spark.Prelude.Maps.{nat_eq, pair_eq}
use go_spark.Prelude.Results.{ok, err}
use go_spark.Planner.{Stage, JobPlan, result}
use go_spark.Scheduler.{Output, ExecResult, Job, Scheduler}
use go_spark.Scheduler.Tasks.{World, done}
use go_spark.Scheduler.Jobs.{Submission, limit, schedule_results}
use go_spark.Commit.{OutputManifest, Storage, Commit, failed_visible, output_committed, commits}
use go_spark.Commit.Published.{Publishes, commits-Publishes}
use go_spark.Saves.{commit_failed, schedule_save}

abbrev save_stage : Stage
save_stage = record {
  id = 0;
  kind = result;
  rdd_id = 2;
  num_partitions = 1;
  shuffle_id = 0;
  num_reducers = 0;
  parents = [];
}

abbrev save_job : Job
save_job = record {
  job_id = 5;
  saves = true;
  stages = save_stage ∷ [];
  result_stage_id = 0;
  num_runners = 1;
  max_attempts = 3;
  max_recoveries = 2;
  range_sort = λ id. false;
  cache_hints = λ id. [];
  sort_less = λ id. ltb;
  accumulator_context = none;
}

abbrev output : Output
output = record {
  job_id = 5;
  stage_id = 0;
  partition_id = 0;
  attempt = 0;
  key = 50;
  num_bytes = 9;
  sha256 = replicate 64 1;
}

abbrev saved : ExecResult
saved = record {
  kind = result;
  partition_id = 0;
  manifest = none;
  output = some output;
  records = [];
  samples = [];
  accumulators = [];
  cached = [];
  dropped = [];
}

abbrev saving : World
saving = record {
  canceled = λ clock. false;
  runners = λ clock. record { alive = λ index. true; worker_id = λ index. 0 };
  exec = λ clock index t. done saved;
  on_task_complete = λ clock t res. true;
  encode = λ bounds. some 0;
  add_float = λ a b. a;
}

abbrev after_save : List ExecResult × Scheduler
after_save = (
  saved ∷ [],
  record {
    worker = 0;
    repairs = 0;
    accepted = ((0, 0), saved) ∷ [];
    attempts = ((0, 0), 1) ∷ [];
    cache_locations = [];
    worker_ids = (0, 0) ∷ [];
    sampled = [];
    bounds = [];
    totals = none;
    clock = 5;
  },
)

abbrev save_plan : JobPlan
save_plan = record { stages = save_stage ∷ []; result_stage_id = 0 }

abbrev save_submission : Submission
save_submission = record {
  cache_identity = [];
  accumulators = [];
  max_attempts = limit 0;
  max_recoveries = limit 0;
  plan = some save_plan;
  random = some 4;
  has_path = true;
}

saving_ends : schedule_results saving save_submission save_job 6 ≡ ok (save_job, after_save)
unfolding schedule_results
saving_ends = refl

-- The keys of attempts, and texts of manifests by their jobs.
abbrev key_of : ℕ → ℕ → ℕ → ℕ → ℕ
key_of job stage partition attempt = job * 10 + stage + partition + attempt

abbrev marshal : OutputManifest → List ℕ
marshal m = m.version ∷ m.job_id ∷ length m.partitions ∷ []

abbrev store : Storage
store = record {
  directory = true;
  read = λ key. some (9, replicate 64 1);
  encodable = true;
  exclusive = true;
  publication = failed_visible (1 ∷ 5 ∷ 1 ∷ []);
  openable = true;
  intact = true;
}

abbrev commit_of : ℕ → Commit
commit_of job = record {
  job_id = job;
  task_name = 1;
  stage_id = 0;
  count = 1;
  outputs = record output { job_id = job; key = job * 10 } ∷ [];
}

-- The first job commits, a second one does not, and the first may repeat its commit.
abbrev three_commits : List (Storage × Commit)
three_commits = (store, commit_of 5) ∷ (store, commit_of 6) ∷ (store, commit_of 5) ∷ []

abbrev manifest : OutputManifest
manifest = record { version = 1; job_id = 5; task_name = 1; partitions = some output ∷ [] }

three_results :
    commits key_of marshal three_commits none
    ≡ ok manifest ∷ err output_committed ∷ ok manifest ∷ []
unfolding commits
three_results = refl

commits-Publishes_example :
    (text : List ℕ) × All
      (Publishes key_of marshal text)
      (commits key_of marshal three_commits none)
commits-Publishes_example = commits-Publishes key_of marshal three_commits

-- Nothing decodes a marker that is not there.
abbrev decode : List ℕ → Option OutputManifest
decode text = none

save_ends :
    schedule_save key_of marshal decode saving 1 store save_submission save_job 6 store none none
    ≡ (some (marshal manifest), ok manifest)
unfolding schedule_save
save_ends = refl

-- A marker that is there when the job ends, and one that is written in part only.
save_loses :
    schedule_save key_of marshal decode saving 1 store save_submission save_job 6 store none
      (some (7 ∷ []))
    ≡ (some (7 ∷ []), err (commit_failed output_committed))
unfolding schedule_save
save_loses = refl

save_breaks :
    schedule_save key_of marshal decode saving 1
      (record store { publication = failed_visible (1 ∷ []) })
      save_submission
      save_job
      6
      store
      none
      none
    ≡ (some (1 ∷ []), err (commit_failed output_committed))
unfolding schedule_save
save_breaks = refl
