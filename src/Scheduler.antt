-- ===== src/Scheduler.antt =====
-- scheduler.go: the state of the lineage scheduler, the choice of a worker, and the check of a result.
-- Job IDs, worker IDs and encoded bounds are numbers that are only compared; the empty ID is 0. `totals` are the accumulators of the driver,
-- whose float64 numbers are named by numbers, too.
pub mod Recovery
pub mod Workers
pub mod Picking
pub mod Checks
pub mod Tasks
pub mod Retry
pub mod Waves
pub mod Samples
pub mod Jobs
pub mod Gives
pub mod Valid
use go_spark.Prelude.{
  ℕ, zero, suc, ◌+◌, ◌-◌, ◌%◌, Bool, true, false, not, ◌||◌, ◌&&◌, Option, none, some, List, [],
  ◌∷◌, ◌++◌, ◌==◌, ltb, if◌then◌else◌, length,
}
use go_spark.Prelude.Maps.{lookup, assign, delete, contains, remove, nat_eq, pair_eq}
use go_spark.Accumulators.{AccumulatorSet, Updates}
use go_spark.Planner.{Stage, StageKind, result, shuffle_map, sample}

-- The fields of a MapOutputManifest that the scheduler reads.
pub record Manifest : Type 0 where
  pub job_id : ℕ
  pub shuffle_id : ℕ
  pub map_id : ℕ
  pub attempt : ℕ

-- A PartitionOutput; a key is a number that is only compared.
pub record Output : Type 0 where
  pub job_id : ℕ
  pub stage_id : ℕ
  pub partition_id : ℕ
  pub attempt : ℕ
  pub key : ℕ
  pub num_bytes : ℕ
  pub sha256 : List ℕ

-- A CachePartition: the RDD and its partition. Also a taskKey: the stage and its partition.
abbrev pub PartitionKey : Type 0
PartitionKey = ℕ × ℕ

pub record ExecResult : Type 0 where
  pub kind : StageKind
  pub partition_id : ℕ
  pub manifest : Option Manifest
  pub output : Option Output
  pub records : List ℕ
  pub samples : List ℕ
  pub accumulators : Updates ℕ
  pub cached : List PartitionKey
  pub dropped : List PartitionKey

pub record Task : Type 0 where
  pub job_id : ℕ
  pub stage_id : ℕ
  pub partition_id : ℕ
  pub attempt : ℕ
  pub saves : Bool
  pub upstream : List Manifest
  pub is_sample : Bool
  pub range_bounds : Option ℕ

pub record FetchError : Type 0 where
  pub job_id : ℕ
  pub shuffle_id : ℕ
  pub map_id : ℕ
  pub attempt : ℕ

-- What stays the same during a job: its plan, `opts`, and whether its action is "save". By the ID of a
-- stage: its RangeSort, its CacheHints, and the order of the plan's sortLess.
pub record Job : Type 0 where
  pub job_id : ℕ
  pub saves : Bool
  pub stages : List Stage
  pub result_stage_id : ℕ
  pub num_runners : ℕ
  pub max_attempts : ℕ
  pub max_recoveries : ℕ
  pub range_sort : ℕ → Bool
  pub cache_hints : ℕ → List (List PartitionKey)
  pub sort_less : ℕ → ℕ → ℕ → Bool
  pub accumulator_context : Option (AccumulatorSet ℕ)

-- The state of a lineageScheduler. `clock` counts the questions that it has asked of the world, whose
-- answers change with time.
pub record Scheduler : Type 0 where
  pub worker : ℕ
  pub repairs : ℕ
  pub accepted : List (PartitionKey × ExecResult)
  pub attempts : List (PartitionKey × ℕ)
  pub cache_locations : List (PartitionKey × List ℕ)
  pub worker_ids : List (ℕ × ℕ)
  pub sampled : List ℕ
  pub bounds : List (ℕ × ℕ)
  pub totals : Option (AccumulatorSet ℕ)
  pub clock : ℕ

pub StageKind_beq : StageKind → StageKind → Bool
StageKind_beq result result = true
StageKind_beq shuffle_map shuffle_map = true
StageKind_beq sample sample = true
StageKind_beq _ _ = false

-- `m == nil || …`, negated.
map_matches : Task → Stage → Option Manifest → Bool
map_matches t st none = false
map_matches t st (some m) =
    m.job_id == t.job_id
    && (m.shuffle_id == st.shuffle_id && (m.map_id == t.partition_id && m.attempt == t.attempt))

output_matches : Task → Option Output → Bool
output_matches t none = false
output_matches t (some out) =
    out.job_id == t.job_id
    && (out.stage_id == t.stage_id
        && (out.partition_id == t.partition_id && out.attempt == t.attempt))

-- validateTaskResult: whether the result is accepted.
unfoldable pub validate_task_result : Task → Stage → ExecResult → Bool
unfolding StageKind_beq map_matches output_matches
validate_task_result t st res =
    if not (StageKind_beq res.kind st.kind) || not (res.partition_id == t.partition_id)
    then false
    else if StageKind_beq st.kind shuffle_map && not (map_matches t st res.manifest)
    then false
    else if StageKind_beq st.kind result && t.saves && not (output_matches t res.output)
    then false
    else true

-- The workers of a key after one is removed; a key with no worker goes.
abbrev pub keep_workers :
    PartitionKey → List ℕ → List (PartitionKey × List ℕ) → List (PartitionKey × List ℕ)
keep_workers key [] m = m
keep_workers key (w ∷ ws) m = (key, w ∷ ws) ∷ m

-- dropWorkerCache
unfoldable pub drop_worker_cache : ℕ → List (PartitionKey × List ℕ) → List (PartitionKey × List ℕ)
unfolding remove
drop_worker_cache worker [] = []
drop_worker_cache worker ((key, workers) ∷ m) =
    keep_workers key (remove worker workers) (drop_worker_cache worker m)

abbrev pub workers_of : PartitionKey → List (PartitionKey × List ℕ) → List ℕ
workers_of key m = elim (lookup key m) [ none ↦ [] | some ws ↦ ws ]

-- The loops of rememberWorkerCache.
unfoldable pub forget :
    ℕ → List PartitionKey → List (PartitionKey × List ℕ) → List (PartitionKey × List ℕ)
unfolding remove delete
forget worker [] m = m
forget worker (key ∷ dropped) m =
    forget worker dropped (keep_workers key (remove worker (workers_of key m)) (delete key m))

unfoldable pub note :
    ℕ → List PartitionKey → List (PartitionKey × List ℕ) → List (PartitionKey × List ℕ)
unfolding assign
note worker [] m = m
note worker (key ∷ cached) m = note worker cached (assign key (worker ∷ workers_of key m) m)

-- rememberWorkerCache
unfoldable pub remember_worker_cache :
    ℕ
    → List PartitionKey
    → List PartitionKey
    → List (PartitionKey × List ℕ)
    → List (PartitionKey × List ℕ)
unfolding forget note
remember_worker_cache worker cached dropped m = note worker cached (forget worker dropped m)

-- s.cacheLocations[key][worker]
abbrev pub caches : ℕ → PartitionKey → List (PartitionKey × List ℕ) → Bool
caches worker key m = contains worker (workers_of key m)

-- How many of the hinted partitions a worker caches.
abbrev pub score : ℕ → List PartitionKey → List (PartitionKey × List ℕ) → ℕ
score worker [] m = 0
score worker (key ∷ hints) m =
    if caches worker key m then score worker hints m + 1 else score worker hints m

-- What the runners answer at a time: Alive (AliveContext) and WorkerID; a runner without the method
-- is alive, and has the ID 0.
pub record Runners : Type 0 where
  pub alive : ℕ → Bool
  pub worker_id : ℕ → ℕ

-- `if previous != "" && id != previous { drop }`, and the new ID.
unfoldable pub note_worker_id : ℕ → ℕ → Scheduler → Scheduler
unfolding drop_worker_cache assign
note_worker_id index id s =
    let previous : ℕ = elim (lookup index s.worker_ids) [ none ↦ 0 | some old ↦ old ] in
    record s {
      cache_locations =
          if not (previous == 0) && not (id == previous)
          then drop_worker_cache index s.cache_locations
          else s.cache_locations;
      worker_ids = assign index id s.worker_ids;
    }

-- `best` and `bestScore` after a candidate with the given score; `none` is -1.
abbrev pub better : Option (ℕ × ℕ) → ℕ → ℕ → Option (ℕ × ℕ)
better none index candidate = some (index, candidate)
better (some (best, best_score)) index candidate =
    if ltb best_score candidate then some (index, candidate) else some (best, best_score)

module _ (r : Runners) (num_runners : ℕ) (used : List ℕ) (hints : List PartitionKey) where
  -- The loop of pickWorkerIndexFor, with `n` rounds left, from `i` on.
  unfoldable pub pick_loop : ℕ → ℕ → Scheduler → Option (ℕ × ℕ) → Scheduler × Option (ℕ × ℕ)
  unfolding note_worker_id
  pick_loop zero i s best = (s, best)
  pick_loop (suc n) i s best =
      let index = (s.worker + i) % num_runners in
      let noted = note_worker_id index (r.worker_id index) s in
      let skip = pick_loop n (i + 1) s best in
      let dead =
        pick_loop n (i + 1)
          (record s { cache_locations = drop_worker_cache index s.cache_locations }) best in
      let candidate =
        pick_loop n (i + 1) noted (better best index (score index hints noted.cache_locations)) in
      if contains index used then skip else if r.alive index then candidate else dead

  picked : Scheduler → Option (ℕ × ℕ) → Scheduler × Option ℕ
  picked s none = (s, none)
  picked s (some (best, best_score)) = (record s { worker = (best + 1) % num_runners }, some best)

  -- pickWorkerIndexFor
  unfoldable pub pick_worker_index_for : Scheduler → Scheduler × Option ℕ
  unfolding pick_loop picked
  pick_worker_index_for s = let (s', best) = pick_loop num_runners 0 s none in picked s' best
