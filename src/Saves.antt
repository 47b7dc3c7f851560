-- ===== src/Saves.antt =====
-- scheduler.go, distributed_output.go: the way of a job from its plan to the marker of its output. What JSON
-- decodes from a marker is a parameter.
pub mod Planned
pub mod Parts
pub mod Saved
use go_spark.Prelude.{
  ℕ, Bool, true, false, not, ◌&&◌, Option, none, some, List, ◌==◌, if◌then◌else◌, length,
}
use go_spark.Prelude.Results.{Result, ok, err}
use go_spark.Scheduler.{Output, ExecResult, Job, Scheduler}
use go_spark.Scheduler.Tasks.{World, JobError, Run}
use go_spark.Scheduler.Jobs.{Submission, schedule_results}
use go_spark.Commit.{
  CommitError, OutputManifest, Storage, Commit, selected_outputs, commit_distributed_output,
}

pub data SaveError : Type 0 where
  not_a_save already_committed save_canceled : SaveError
  job_failed : JobError → SaveError
  commit_failed : CommitError → SaveError

module _ (decode : List ℕ → Option OutputManifest) where
  -- ReadCommittedOutput; `none` is an error.
  unfoldable pub read_committed_output : Storage → Option (List ℕ) → Option OutputManifest
  read_committed_output fs none = none
  read_committed_output fs (some text) =
      if fs.openable && fs.intact
      then elim (decode text) [ none ↦ none | some m ↦ if m.version == 1 then some m else none ]
      else none

module _ (key_of : ℕ → ℕ → ℕ → ℕ → ℕ) (marshal : OutputManifest → List ℕ)
    (decode : List ℕ → Option OutputManifest) where
  abbrev pub commit_result : Result CommitError OutputManifest → Result SaveError OutputManifest
  commit_result (ok m) = ok m
  commit_result (err e) = err (commit_failed e)

  module _ (w : World) (task_name : ℕ) (fs : Storage) where
    abbrev pub save_commit : Job → List ExecResult → List Output → Commit
    save_commit j results selected = record {
      job_id = j.job_id;
      task_name = task_name;
      stage_id = j.result_stage_id;
      count = length results;
      outputs = selected;
    }

    -- scheduleSaveContext from the results on.
    abbrev pub save_results :
        Job
        → List ExecResult × Scheduler
        → Option (List ℕ)
        → Option (List ℕ) × Result SaveError OutputManifest
    save_results j (results, s) marker = elim (selected_outputs results (length results)) [
      | err e ↦ (marker, err (commit_failed e))
      | ok selected ↦
          if w.canceled s.clock
          then (marker, err save_canceled)
          else (let r =
                commit_distributed_output key_of marshal fs (save_commit j results selected)
                  marker in
              (r.0, commit_result r.1))
    ]

    -- scheduleSaveContext: the marker after it, and its result. What is at the path may change while the job
    -- runs: `first` and `found` are the file system and the marker before it, `fs` and `marker` after it.
    unfoldable pub schedule_save :
        Submission
        → Job
        → ℕ
        → Storage
        → Option (List ℕ)
        → Option (List ℕ)
        → Option (List ℕ) × Result SaveError OutputManifest
    unfolding read_committed_output schedule_results selected_outputs commit_distributed_output
    schedule_save sub j fuel first found marker =
        if not (j.saves && sub.has_path)
        then (marker, err not_a_save)
        else elim (read_committed_output decode first found) [
          | some m ↦ (marker, err already_committed)
          | none ↦ elim (schedule_results w sub j fuel) [
            | err e ↦ (marker, err (job_failed e))
            | ok r ↦ save_results r.0 r.1 marker
          ]
        ]
