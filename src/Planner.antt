-- ===== src/Planner.antt =====
-- planner.go: from the lineage of an RDD to the stages of a job. An RDD is its ID; the lineage gives
-- each ID its partitions and dependencies. RDD names are not modelled.
pub mod Stages
pub mod Walks
pub mod Fuel
pub mod Ordered
use go_spark.Prelude.{
  ℕ, zero, suc, ◌+◌, ◌<◌, Bool, true, false, ◌||◌, ◌&&◌, Option, none, some, List, [], ◌∷◌, ◌++◌,
  ◌==◌, if◌then◌else◌, length, All,
}

-- A dependency; `absent` is nil, or has no parent.
pub data Dependency : Type 0 where
  absent : Dependency
  narrow : ℕ → Dependency
  shuffle : (shuffle_id num_reducers parent : ℕ) → Dependency

pub record Rdd : Type 0 where
  pub num_partitions : ℕ
  pub dependencies : List Dependency

abbrev pub Lineage : Type 0
Lineage = ℕ → Rdd

pub data StageKind : Type 0 where
  result shuffle_map sample : StageKind

pub record Stage : Type 0 where
  pub id : ℕ
  pub kind : StageKind
  pub rdd_id : ℕ
  pub num_partitions : ℕ
  pub shuffle_id : ℕ
  pub num_reducers : ℕ
  pub parents : List ℕ

-- `shuffle_stages` maps the ID of a shuffle to that of its stage.
pub record Planner : Type 0 where
  pub shuffle_stages : List (ℕ × ℕ)
  pub stages : List Stage
  pub next_id : ℕ

abbrev pub lookup : ℕ → List (ℕ × ℕ) → Option ℕ
lookup k [] = none
lookup k ((j, v) ∷ m) = if j == k then some v else lookup k m

abbrev pub contains : ℕ → List ℕ → Bool
contains k [] = false
contains k (x ∷ xs) = x == k || contains k xs

-- The loop of uniqueInts; `seen` and `out` hold the same numbers.
unique_from : List ℕ → List ℕ → List ℕ
unique_from seen [] = []
unique_from seen (id ∷ ids) =
    let rest = unique_from (id ∷ seen) ids in
    let skipped = unique_from seen ids in if contains id seen then skipped else id ∷ rest

unfoldable pub unique_ints : List ℕ → List ℕ
unfolding unique_from
unique_ints ids = unique_from [] ids

-- The new map stage of a shuffle, once its parents are planned.
pub add_map_stage : Lineage → ℕ → ℕ → ℕ → List ℕ → Planner → ℕ × Planner
add_map_stage g shuffle_id num_reducers parent parent_ids p = (
  p.next_id,
  record {
    shuffle_stages = (shuffle_id, p.next_id) ∷ p.shuffle_stages;
    stages =
        p.stages
        ++ record {
          id = p.next_id;
          kind = shuffle_map;
          rdd_id = parent;
          num_partitions = (g parent).num_partitions;
          shuffle_id = shuffle_id;
          num_reducers = num_reducers;
          parents = unique_ints parent_ids;
        }
          ∷ [];
    next_id = p.next_id + 1;
  },
)

-- The variables of the loop of parentStages; the top of the stack is its head.
pub record Walk : Type 0 where
  pub planner : Planner
  pub ids : List ℕ
  pub seen : List ℕ
  pub started : Bool
  pub stack : List ℕ

abbrev pub ParentStages : Type 0
ParentStages = Planner → ℕ → Option (List ℕ × Planner)

-- getShuffleMapStage, given parentStages. `none` means that the fuel ran out.
pub get_shuffle_map_stage : Lineage → ParentStages → ℕ → ℕ → ℕ → Planner → Option (ℕ × Planner)
unfolding add_map_stage
get_shuffle_map_stage g parent_stages shuffle_id num_reducers parent p =
    elim (lookup shuffle_id p.shuffle_stages) [
      | some id ↦ some (id, p)
      | none ↦ elim (parent_stages p parent) [
        | none ↦ none
        | some (parent_ids, p') ↦
            some (add_map_stage g shuffle_id num_reducers parent parent_ids p')
      ]
    ]

-- The loop of parentStages over the dependencies of one RDD.
pub visit : Lineage → ParentStages → List Dependency → Walk → Option Walk
unfolding get_shuffle_map_stage
visit g parent_stages [] w = some w
visit g parent_stages (absent ∷ deps) w = visit g parent_stages deps w
visit g parent_stages (narrow parent ∷ deps) w =
    visit g parent_stages deps (record w { stack = parent ∷ w.stack })
visit g parent_stages (shuffle shuffle_id num_reducers parent ∷ deps) w =
    elim (get_shuffle_map_stage g parent_stages shuffle_id num_reducers parent w.planner) [
      | none ↦ none
      | some (id, p) ↦ visit g parent_stages deps (record w { planner = p; ids = w.ids ++ id ∷ [] })
    ]

-- parentStages from a state of its loop on, with the stack as an argument of its own (the field takes
-- what a visit pushes): a unit of fuel for each round, and what is left of it for
-- the parentStages of each shuffle. The first RDD is not marked as seen.
abbrev pub start : Planner → Walk
start p = record { planner = p; ids = []; seen = []; started = false; stack = [] }

abbrev pub resume :
    (Walk → List ℕ → Option (List ℕ × Planner)) → Option Walk → Option (List ℕ × Planner)
resume go_on none = none
resume go_on (some w) = go_on w w.stack

pub walk : Lineage → ℕ → Walk → List ℕ → Option (List ℕ × Planner)
unfolding visit
walk g zero w stack = none
walk g (suc fuel) w [] = some (w.ids, w.planner)
walk g (suc fuel) w (cur ∷ stack) =
    let visited =
      visit g (λ p rdd. walk g fuel (start p) (rdd ∷ [])) (g cur).dependencies
        (record w {
          seen = if w.started then cur ∷ w.seen else w.seen;
          started = true;
          stack = stack;
        }) in
    let go_on = resume (walk g fuel) visited in
    let skip = walk g fuel w stack in if w.started && contains cur w.seen then skip else go_on

unfoldable pub parent_stages : Lineage → ℕ → ParentStages
unfolding walk
parent_stages g fuel p rdd = walk g fuel (start p) (rdd ∷ [])

pub record JobPlan : Type 0 where
  pub stages : List Stage
  pub result_stage_id : ℕ

-- The stages of PlanRDD, before cache hints, range sorts and the fingerprint are added.
unfoldable pub plan_rdd : Lineage → ℕ → ℕ → Option JobPlan
unfolding parent_stages unique_ints
plan_rdd g fuel rdd =
    elim (parent_stages g fuel (record { shuffle_stages = []; stages = []; next_id = 0 }) rdd) [
      | none ↦ none
      | some (parents, p) ↦ some (record {
        stages =
            p.stages
            ++ record {
              id = p.next_id;
              kind = result;
              rdd_id = rdd;
              num_partitions = (g rdd).num_partitions;
              shuffle_id = 0;
              num_reducers = 0;
              parents = unique_ints parents;
            }
              ∷ [];
        result_stage_id = p.next_id;
      })
    ]
