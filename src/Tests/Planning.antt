-- ===== src/Tests/Planning.antt =====
-- The plan of a count of words: RDD 2 is a shuffle of RDD 1, which is narrow on RDD 0.
use go_spark.Prelude.{zero, suc, ◌≡◌, ◌+◌, refl, [], ◌∷◌, arith, length, All}
use go_spark.Planner.{Lineage, narrow, shuffle, result, shuffle_map, Stage, JobPlan, plan_rdd}
use go_spark.Planner.Stages.{Numbered, IsWaiting}
use go_spark.Planner.Walks.{plan_rdd-IsWaiting}
use go_spark.Planner.Fuel.{Returns, IsLineage, weight_to, plan_rdd-Returns}
use go_spark.Planner.Ordered.{ordered_stages, ordered_stages-Numbered}

abbrev pub word_count : Lineage
word_count zero = record { num_partitions = 2; dependencies = [] }
word_count (suc zero) = record { num_partitions = 2; dependencies = narrow 0 ∷ [] }
word_count (suc (suc zero)) = record { num_partitions = 3; dependencies = shuffle 7 3 1 ∷ [] }
word_count (suc (suc (suc r))) = record { num_partitions = 0; dependencies = [] }

pub word_count-IsLineage : IsLineage word_count
word_count-IsLineage zero = tt
word_count-IsLineage (suc zero) = (omega arith, tt)
word_count-IsLineage (suc (suc zero)) = (omega arith, tt)
word_count-IsLineage (suc (suc (suc r))) = tt

-- Its stages.
abbrev pub count_map : Stage
count_map = record {
  id = 0;
  kind = shuffle_map;
  rdd_id = 1;
  num_partitions = 2;
  shuffle_id = 7;
  num_reducers = 3;
  parents = [];
}

abbrev pub count_result : Stage
count_result = record {
  id = 1;
  kind = result;
  rdd_id = 2;
  num_partitions = 3;
  shuffle_id = 0;
  num_reducers = 0;
  parents = 0 ∷ [];
}

abbrev pub count_plan : JobPlan
count_plan = record { stages = count_map ∷ count_result ∷ []; result_stage_id = 1 }

plan_rdd-IsWaiting_example :
    Numbered 0 count_plan.stages
    × All (IsWaiting count_plan.stages) count_plan.stages
    × (1 + 1 ≡ length count_plan.stages)
unfolding plan_rdd
plan_rdd-IsWaiting_example = plan_rdd-IsWaiting word_count 9 2 count_plan refl

plan_rdd-Returns_example : Returns (plan_rdd word_count 9 2)
unfolding weight_to
plan_rdd-Returns_example = plan_rdd-Returns word_count word_count-IsLineage 9 2 (omega arith)

pub count_waits : All (IsWaiting (count_map ∷ count_result ∷ [])) (count_map ∷ count_result ∷ [])
count_waits = (tt, (((omega arith, (count_map, refl, refl)), tt), tt))

ordered_stages-Numbered_example :
    ordered_stages (count_map ∷ count_result ∷ []) ≡ count_map ∷ count_result ∷ []
ordered_stages-Numbered_example =
    ordered_stages-Numbered (count_map ∷ count_result ∷ []) (refl, (refl, tt)) count_waits
