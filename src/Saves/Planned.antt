-- ===== src/Saves/Planned.antt =====
-- planner.go, scheduler.go: a job whose stages are those of a plan.
use go_spark.Prelude.{ℕ, ◌*◌, ◌≤◌, ◌≡◌, Option, none, some, List, [], ◌∷◌, ◌++◌, length}
use go_spark.Planner.{Lineage, Stage, result, JobPlan, Planner, plan_rdd}
use go_spark.Scheduler.{Job}
use go_spark.Scheduler.Tasks.{World}
use go_spark.Scheduler.Jobs.{Submission, submitted, schedule_results}
use go_spark.Scheduler.Gives.{Gives}
use go_spark.Scheduler.Valid.Retrying.{stage_fuel}
use go_spark.Scheduler.Valid.Submitting.{IsScheduled}

-- The last stage of a plan of an RDD: a result stage with its partitions.
abbrev pub IsLast : Lineage → ℕ → JobPlan → Stage → Type 0
IsLast g rdd plan last =
    (last.id ≡ plan.result_stage_id)
    × (last.kind ≡ result)
    × (last.num_partitions ≡ (g rdd).num_partitions)

abbrev EndsPlan : Lineage → ℕ → Option JobPlan → Type 0
EndsPlan g rdd none = Unit
EndsPlan g rdd (some plan) =
    (l : List Stage) × ((last : Stage) × (plan.stages ≡ l ++ last ∷ []) × IsLast g rdd plan last)

-- What is submitted, with the plan of an RDD.
abbrev pub with_plan : Lineage → ℕ → ℕ → Submission → Submission
with_plan g plan_fuel rdd sub = record sub { plan = plan_rdd g plan_fuel rdd }

-- There is a plan of an RDD, and the job with its stages ends with the results of its last stage, or
-- fails as a job may.
abbrev pub RunsPlan : World → Submission → Job → Lineage → ℕ → ℕ → Type 0
RunsPlan w sub j g plan_fuel rdd =
    (plan : JobPlan) × (plan_rdd g plan_fuel rdd ≡ some plan)
    × ((last : Stage) × IsLast g rdd plan last
        × ((fuel : ℕ)
            → length plan.stages * stage_fuel (submitted sub plan 0 j) ≤ fuel
            → Gives (IsScheduled (with_plan g plan_fuel rdd sub) plan j last)
                (schedule_results w (with_plan g plan_fuel rdd sub) j fuel)))
