-- ===== src/Scheduler/Recovery.antt =====
-- scheduler.go: invalidate, which handles the failure to fetch a map output.
pub mod Ready
pub mod Dropped
pub mod Repairs
pub mod Taken
use go_spark.Prelude.{
  ℕ, zero, suc, ◌+◌, Bool, true, false, not, ◌||◌, Option, none, some, List, [], ◌∷◌, ◌==◌, leb,
  if◌then◌else◌,
}
use go_spark.Prelude.Maps.{lookup, delete, contains, remove, nat_eq, pair_eq}
use go_spark.Prelude.Results.{Result, ok, err, guard, ◌>>◌, ◌>>=◌}
use go_spark.Planner.{Stage, result}
use go_spark.Planner.Ordered.{stage_by_id, ordered_stages}
use go_spark.Scheduler.{PartitionKey, ExecResult, Manifest, FetchError, Job, Scheduler}

pub data RecoveryError : Type 0 where
  foreign_shuffle unexpected_shuffle stale_shuffle recovery_limit : RecoveryError

abbrev pub Accepted : Type 0
Accepted = List (PartitionKey × ExecResult)

-- `p, _ := stageByID(s.plan, id)`: the zero stage if there is none.
unfoldable pub find_stage : List Stage → ℕ → Stage
unfolding stage_by_id
find_stage stages id = elim (stage_by_id id stages) [
  | some s ↦ s
  | none ↦ record {
    id = 0;
    kind = result;
    rdd_id = 0;
    num_partitions = 0;
    shuffle_id = 0;
    num_reducers = 0;
    parents = [];
  }
]

-- The first parent with the shuffle of the failure.
pub find_source : List Stage → ℕ → List ℕ → Option Stage
unfolding find_stage
find_source stages shuffle_id [] = none
find_source stages shuffle_id (id ∷ parents) =
    let p = find_stage stages id in
    let rest = find_source stages shuffle_id parents in
    if p.shuffle_id == shuffle_id then some p else rest

-- `!ok || r.Manifest == nil || r.Manifest.Attempt != e.Attempt`, negated.
manifest_is : ℕ → Option Manifest → Bool
manifest_is attempt none = false
manifest_is attempt (some m) = m.attempt == attempt

pub is_current : ℕ → Option ExecResult → Bool
unfolding manifest_is
is_current attempt none = false
is_current attempt (some r) = manifest_is attempt r.manifest

-- `for p := 0; p < n; p++ { delete(s.accepted, taskKey{id, p}) }`
pub clear_partitions : ℕ → ℕ → Accepted → Accepted
unfolding delete
clear_partitions id zero m = m
clear_partitions id (suc n) m = delete (id, n) (clear_partitions id n m)

delete_bounds : ℕ → List (ℕ × ℕ) → List (ℕ × ℕ)
unfolding delete
delete_bounds id m = delete id m

clear_stage : Stage → Scheduler → Scheduler
unfolding clear_partitions remove delete_bounds
clear_stage st s = record s {
  accepted = clear_partitions st.id st.num_partitions s.accepted;
  sampled = remove st.id s.sampled;
  bounds = delete_bounds st.id s.bounds;
}

abbrev pub has_affected : List ℕ → List ℕ → Bool
has_affected affected [] = false
has_affected affected (p ∷ parents) = contains p affected || has_affected affected parents

-- The loop over the ordered stages, and the affected stages at its end.
pub discard : ℕ → List Stage → List ℕ → Scheduler → List ℕ × Scheduler
unfolding clear_stage
discard source [] affected s = (affected, s)
discard source (st ∷ stages) affected s =
    let kept = discard source stages affected s in
    let cleared = discard source stages (st.id ∷ affected) (clear_stage st s) in
    if st.id == source then kept else if has_affected affected st.parents then cleared else kept

-- What invalidate does with a failure that passes its tests.
pub repair : Job → Stage → FetchError → Scheduler → Scheduler
unfolding discard delete ordered_stages
repair j source e s =
    (discard source.id (ordered_stages j.stages) (source.id ∷ [])
      (record s { repairs = s.repairs + 1; accepted = delete (source.id, e.map_id) s.accepted })).1

or_unexpected : Option Stage → Result RecoveryError Stage
or_unexpected none = err unexpected_shuffle
or_unexpected (some source) = ok source

unfoldable pub invalidate : Job → FetchError → Stage → Scheduler → Result RecoveryError Scheduler
unfolding repair find_source is_current or_unexpected
invalidate j e consumer s = do
  guard (e.job_id == j.job_id) foreign_shuffle
  source ← or_unexpected (find_source j.stages e.shuffle_id consumer.parents)
  guard (is_current e.attempt (lookup (source.id, e.map_id) s.accepted)) stale_shuffle
  guard (not (leb j.max_recoveries s.repairs)) recovery_limit
  ok (repair j source e s)
