-- ===== src/Scheduler/Valid/Submitting.antt =====
-- scheduler.go: scheduleResults of what is submitted: its checks, its plan, and the run of the job.
use go_spark.Prelude.{ℕ, ◌≡◌, List}
use go_spark.Prelude.Maps.{nat_eq, pair_eq}
use go_spark.Planner.{Stage, JobPlan}
use go_spark.Scheduler.{ExecResult, Job, Scheduler}
use go_spark.Scheduler.Jobs.{Submission, submitted}
use go_spark.Scheduler.Gives.{Gives}
use go_spark.Scheduler.Valid.Finishing.{IsComplete}

-- The results of a job that is prepared under some ID.
pub record IsScheduled (sub : Submission) (plan : JobPlan) (j : Job) (last : Stage)
    (r : Job × (List ExecResult × Scheduler)) : Type 0 where
  pub id : ℕ
  pub of_job : r.0 ≡ submitted sub plan id j
  pub complete : IsComplete r.0 last r.1
