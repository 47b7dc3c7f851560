-- ===== src/Saves/Saved.antt =====
-- scheduler.go: what a job that saves leaves at its path.
use go_spark.Prelude.{ℕ, ◌≡◌, Option, some, List, map, length}
use go_spark.Prelude.Results.{Result, ok, err}
use go_spark.Planner.{Stage, JobPlan}
use go_spark.Scheduler.{Output, Job, Scheduler}
use go_spark.Scheduler.Jobs.{Submission, submitted}
use go_spark.Scheduler.Gives.{IsFailure}
use go_spark.Commit.{OutputManifest, Commit}
use go_spark.Commit.Selected.{AreOutputs}
use go_spark.Saves.{SaveError, job_failed, commit_failed}
use go_spark.Saves.Parts.{IsRefusal}

module _ (key_of : ℕ → ℕ → ℕ → ℕ → ℕ) (marshal : OutputManifest → List ℕ)
    (decode : List ℕ → Option OutputManifest) (j : Job) (last : Stage) where
  -- What a save returns. A manifest is of the job, has one output for each partition of the last stage, in
  -- their order, and is what the marker holds. If the job fails, the marker stays, and a commit fails only
  -- by what it reads or writes.
  abbrev pub IsSaved : Option (List ℕ) → Option (List ℕ) × Result SaveError OutputManifest → Type 0
  IsSaved before (marker, ok m) =
      (marker ≡ some (marshal m))
      × (m.job_id ≡ j.job_id)
      × ((outputs : List Output) × (m.partitions ≡ map some outputs)
          × (length outputs ≡ last.num_partitions)
          × AreOutputs j last 0 outputs)
  IsSaved before (marker, err (job_failed e)) = IsFailure e × (marker ≡ before)
  IsSaved before (marker, err (commit_failed e)) = IsRefusal e
  IsSaved before (marker, err e) = marker ≡ before

module _ (key_of : ℕ → ℕ → ℕ → ℕ → ℕ) (marshal : OutputManifest → List ℕ)
    (decode : List ℕ → Option OutputManifest) (sub : Submission) (plan : JobPlan) (j : Job)
    (last : Stage) where
  -- What a save returns, of the job under the ID that it gets.
  abbrev pub EndsSaved :
      Option (List ℕ) → Option (List ℕ) × Result SaveError OutputManifest → Type 0
  EndsSaved before r =
      (id : ℕ) × IsSaved key_of marshal decode (submitted sub plan id j) last before r
