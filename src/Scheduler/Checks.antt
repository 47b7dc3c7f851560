-- ===== src/Scheduler/Checks.antt =====
-- scheduler.go: what a result says that validateTaskResult accepts.
use go_spark.Prelude.{◌≡◌, Bool, true, false, Option, none, some, arith, ◌↔◌}
use go_spark.Planner.{Stage, StageKind, result, shuffle_map, sample}
use go_spark.Scheduler.{Manifest, Output, ExecResult, Task, validate_task_result}

-- A map result carries the manifest of this very attempt.
abbrev pub MapMatches : StageKind → Task → Stage → Option Manifest → Type 0
MapMatches shuffle_map t st none = ⊥
MapMatches shuffle_map t st (some m) =
    (m.job_id ≡ t.job_id)
    × (m.shuffle_id ≡ st.shuffle_id)
    × (m.map_id ≡ t.partition_id)
    × (m.attempt ≡ t.attempt)
MapMatches result t st m = Unit
MapMatches sample t st m = Unit

-- A result of a save carries the output of this very attempt.
abbrev pub OutputMatches : StageKind → Bool → Task → Option Output → Type 0
OutputMatches result true t none = ⊥
OutputMatches result true t (some out) =
    (out.job_id ≡ t.job_id)
    × (out.stage_id ≡ t.stage_id)
    × (out.partition_id ≡ t.partition_id)
    × (out.attempt ≡ t.attempt)
OutputMatches result false t out = Unit
OutputMatches shuffle_map saves t out = Unit
OutputMatches sample saves t out = Unit

pub record Answers (t : Task) (st : Stage) (res : ExecResult) : Type 0 where
  pub kind : res.kind ≡ st.kind
  pub partition : res.partition_id ≡ t.partition_id
  pub map_matches : MapMatches st.kind t st res.manifest
  pub output_matches : OutputMatches st.kind t.saves t res.output

pub validated :
    (t : Task) (st : Stage) (res : ExecResult)
    → validate_task_result t st res ≡ true
    → Answers t st res
unfolding validate_task_result
validated t st res h = ground arith

answered :
    (t : Task) (st : Stage) (res : ExecResult)
    → Answers t st res
    → validate_task_result t st res ≡ true
unfolding validate_task_result
answered t st res a = ground arith

-- A result is accepted exactly when it has the kind of the stage, the partition of the task, and the
-- manifest or the saved output of this very attempt.
pub validate_task_result_iff :
    (t : Task) (st : Stage) (res : ExecResult)
    → (validate_task_result t st res ≡ true) ↔ Answers t st res
validate_task_result_iff t st res = (validated t st res, answered t st res)
