-- ===== src/Scheduler/Jobs.antt =====
-- scheduler.go: scheduleResults, which runs the stages of a job until the results of all partitions of
-- its last stage are accepted, and scheduleContext, which puts their records together.
use go_spark.Prelude.{
  ℕ, zero, suc, ◌+◌, ◌==◌, Bool, true, false, not, ◌&&◌, ◌||◌, leb, Option, none, some, List, [],
  ◌∷◌, if◌then◌else◌, length, map, flat_map,
}
use go_spark.Prelude.Maps.{lookup, contains, nat_eq, pair_eq}
use go_spark.Prelude.Results.{ok, err, guard, ◌>>=◌, ◌>>◌}
use go_spark.Accumulators.{Name, Kind, AccumulatorSet, merge_accumulators}
use go_spark.Planner.{Stage, JobPlan}
use go_spark.Planner.Ordered.{ordered_stages}
use go_spark.Scheduler.{ExecResult, Job, Scheduler}
use go_spark.Scheduler.Recovery.{Accepted, find_stage}
use go_spark.Scheduler.Tasks.{
  World, no_workers, invalid_dag, out_of_fuel, not_for_saves, bad_cache_identity,
  unbound_accumulators, negative_limit, plan_failed, no_random, unknown_accumulator, Run,
}
use go_spark.Scheduler.Waves.{run_stage}
use go_spark.Scheduler.Samples.{sample_stage}

-- The results of `c` partitions, from `p` on; none if one of them is missing.
unfoldable pub results_from : Accepted → ℕ → ℕ → ℕ → Option (List ExecResult)
results_from accepted id zero p = some []
results_from accepted id (suc c) p = elim (lookup (id, p) accepted) [
  | none ↦ none
  | some res ↦ elim (results_from accepted id c (p + 1)) [
    | none ↦ none
    | some rest ↦ some (res ∷ rest)
  ]
]

module _ (w : World) (j : Job) where
  -- `if stage.RangeSort && !s.sampled[stage.ID] { s.sampleStage(stage) }`
  unfoldable pub sample_first : Stage → Scheduler → Run Scheduler
  unfolding sample_stage
  sample_first st s =
      if j.range_sort st.id && not (contains st.id s.sampled) then sample_stage w j st s else ok s

  -- One round over the stages, and whether it stopped at a repair.
  unfoldable pub run_stages : ℕ → List Stage → Scheduler → Run (Bool × Scheduler)
  unfolding sample_first run_stage
  run_stages fuel [] s = ok (false, s)
  run_stages fuel (st ∷ stages) s = sample_first st s >>= λ s1. elim (s1.repairs == s.repairs) [
    | false ↦ ok (true, s1)
    | true ↦ run_stage w j fuel st s1 >>= λ s2. elim (s2.repairs == s.repairs) [
      | false ↦ ok (true, s2)
      | true ↦ run_stages fuel stages s2
    ]
  ]

  -- mergeAccumulators of the accepted results, in the order in which the map has them.
  unfoldable pub merge_totals : Scheduler → Run Scheduler
  unfolding merge_accumulators
  merge_totals s = elim s.totals [
    | none ↦ ok s
    | some set ↦
        elim (merge_accumulators 0 w.add_float (map (λ e. e.1.accumulators) s.accepted) set) [
          | ok merged ↦ ok (record s { totals = some merged })
          | err e ↦ err unknown_accumulator
        ]
  ]

  -- The outer loop of scheduleResults, `rounds` of them at most.
  unfoldable pub job_loop :
      ℕ → ℕ → List Stage → Stage → Scheduler → Run (List ExecResult × Scheduler)
  unfolding run_stages results_from merge_totals
  job_loop fuel zero stages last s = err out_of_fuel
  job_loop fuel (suc rounds) stages last s = run_stages fuel stages s >>= λ r. elim r.0 [
    | true ↦ job_loop fuel rounds stages last r.1
    | false ↦ elim (results_from r.1.accepted last.id last.num_partitions 0) [
      | some results ↦ merge_totals r.1 >>= λ s'. ok (results, s')
      | none ↦ job_loop fuel rounds stages last r.1
    ]
  ]

  -- The state that a job starts from.
  abbrev pub start_job : Scheduler
  start_job = record {
    worker = 0;
    repairs = 0;
    accepted = [];
    attempts = [];
    cache_locations = [];
    worker_ids = [];
    sampled = [];
    bounds = [];
    totals = j.accumulator_context;
    clock = 0;
  }

  -- scheduleResults from the state of the scheduler on; each round but the last repairs.
  unfoldable pub run_job : ℕ → Run (List ExecResult × Scheduler)
  unfolding job_loop ordered_stages find_stage
  run_job fuel =
      job_loop fuel (j.max_recoveries + 1) (ordered_stages j.stages)
        (find_stage j.stages j.result_stage_id) start_job

-- A limit of a ScheduleOpts.
pub data Limit : Type 0 where
  negative : Limit
  limit : ℕ → Limit

-- What a job is submitted with: the bytes of its cache identity, the accumulators of its spec, its limits;
-- and what PlanJob and the reading of 16 random bytes answer; and whether a save
-- has a path.
pub record Submission : Type 0 where
  pub cache_identity : List ℕ
  pub accumulators : List (Name × Kind)
  pub max_attempts : Limit
  pub max_recoveries : Limit
  pub plan : Option JobPlan
  pub random : Option ℕ
  pub has_path : Bool

-- A byte of [a-zA-Z0-9_-].
abbrev is_identity_byte : ℕ → Bool
is_identity_byte c =
    leb 97 c && leb c 122
    || (leb 65 c && leb c 90 || (leb 48 c && leb c 57 || (c == 95 || c == 45)))

-- cacheIdentityPattern.MatchString, of a text that is not empty.
abbrev is_cache_identity : List ℕ → Bool
is_cache_identity [] = true
is_cache_identity (c ∷ cs) = is_identity_byte c && is_cache_identity cs

abbrev is_negative : Limit → Bool
is_negative negative = true
is_negative (limit n) = false

-- A limit of 0 takes its default.
abbrev limit_or : ℕ → Limit → ℕ
limit_or default negative = default
limit_or default (limit n) = if n == 0 then default else n

abbrev is_bound : Option (AccumulatorSet ℕ) → Bool
is_bound none = false
is_bound (some set) = true

-- The job with its plan, its limits, and an ID, which is never empty.
abbrev pub submitted : Submission → JobPlan → ℕ → Job → Job
submitted sub plan id j = record j {
  job_id = suc id;
  stages = plan.stages;
  result_stage_id = plan.result_stage_id;
  max_attempts = limit_or 3 sub.max_attempts;
  max_recoveries = limit_or 2 sub.max_recoveries;
}

-- What is checked of a submission.
abbrev pub has_known_identity : Submission → Bool
has_known_identity sub = length sub.cache_identity == 0 || is_cache_identity sub.cache_identity

abbrev pub has_bound_accumulators : Submission → Job → Bool
has_bound_accumulators sub j = length sub.accumulators == 0 || is_bound j.accumulator_context

abbrev pub has_limits : Submission → Bool
has_limits sub = not (is_negative sub.max_attempts || is_negative sub.max_recoveries)

-- scheduleResults up to the state of the scheduler.
unfoldable pub prepare : Submission → Job → Run Job
unfolding ordered_stages
prepare sub j =
    guard (has_known_identity sub) bad_cache_identity
    >> (guard (has_bound_accumulators sub j) unbound_accumulators
        >> (guard (not (j.num_runners == 0)) no_workers
            >> (guard (has_limits sub) negative_limit >> elim sub.plan [
              | none ↦ err plan_failed
              | some plan ↦
                  guard (length (ordered_stages plan.stages) == length plan.stages) invalid_dag
                  >> elim sub.random [
                    | none ↦ err no_random
                    | some id ↦ ok (submitted sub plan id j)
                  ]
            ])))

-- scheduleResults: the results with the state that they are from, and the job, which has its ID.
unfoldable pub schedule_results :
    World → Submission → Job → ℕ → Run (Job × (List ExecResult × Scheduler))
unfolding prepare run_job
schedule_results w sub j fuel = prepare sub j >>= λ j'. run_job w j' fuel >>= λ r. ok (j', r)

-- scheduleContext for an action that is not a tree action.
unfoldable pub schedule : World → Submission → Job → ℕ → Run (List ℕ)
unfolding schedule_results flat_map
schedule w sub j fuel =
    if j.saves
    then err not_for_saves
    else (schedule_results w sub j fuel >>= λ r. ok (flat_map (λ res. res.records) r.1.0))
