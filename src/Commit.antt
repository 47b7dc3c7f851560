-- ===== src/Commit.antt =====
-- distributed_output.go: the choice of the outputs of a save, and their commit by one marker file. The
-- keys of attempts, the JSON text of a manifest, and what the file system answers are parameters.
-- Partitions, attempts and sizes are not negative, and the empty job ID is 0.
pub mod Published
pub mod Selected
use go_spark.Prelude.{
  ℕ, zero, suc, ◌+◌, Bool, true, false, not, ◌&&◌, ◌||◌, Option, none, some, List, [], ◌∷◌, ◌==◌,
  ltb, leb, if◌then◌else◌, length, get_or, set, replicate,
}
use go_spark.Prelude.Maps.{list_beq}
use go_spark.Prelude.Results.{Result, ok, err, ◌>>=◌}
use go_spark.Scheduler.{Output, ExecResult}

pub data CommitError : Type 0 where
  incomplete missing_output no_directory invalid_output unreadable_attempt corrupt_attempt
        not_encoded not_exclusive output_committed publish_failed :
      CommitError

-- An OutputManifest; a task name is a number that is only compared.
pub record OutputManifest : Type 0 where
  pub version : ℕ
  pub job_id : ℕ
  pub task_name : ℕ
  pub partitions : List (Option Output)

-- The loop of SelectedOutputs, from the result `i` on.
unfoldable pub selected_from : ℕ → List ExecResult → Result CommitError (List Output)
selected_from i [] = ok []
selected_from i (r ∷ results) = elim r.output [
  | none ↦ err missing_output
  | some out ↦
      if r.partition_id == i
      then (selected_from (i + 1) results >>= λ selected. ok (out ∷ selected))
      else err missing_output
]

-- SelectedOutputs
unfoldable pub selected_outputs : List ExecResult → ℕ → Result CommitError (List Output)
unfolding selected_from
selected_outputs results expected =
    if not (length results == expected) then err incomplete else selected_from 0 results

-- What the creation of the marker does when there is none: it is written, or the call fails, and then a marker
-- may be visible, with its text or a part of it.
pub data Publication : Type 0 where
  written failed_unseen : Publication
  failed_visible : List ℕ → Publication

-- What the file system answers: whether the directory is made; the size and the hash of an attempt, if it can
-- be opened, read and closed; whether JSON encodes the manifest; whether a file can be created exclusively;
-- how a marker is published; whether a marker can be opened, and read to its end.
pub record Storage : Type 0 where
  pub directory : Bool
  pub read : ℕ → Option (ℕ × List ℕ)
  pub encodable : Bool
  pub exclusive : Bool
  pub publication : Publication
  pub openable : Bool
  pub intact : Bool

-- What a commit is about.
pub record Commit : Type 0 where
  pub job_id : ℕ
  pub task_name : ℕ
  pub stage_id : ℕ
  pub count : ℕ
  pub outputs : List Output

module _ (key_of : ℕ → ℕ → ℕ → ℕ → ℕ) (marshal : OutputManifest → List ℕ) where
  -- Whether an output is of the commit, and its partition is not seen yet.
  unfoldable pub is_valid_output : Commit → List Bool → Output → Bool
  is_valid_output c seen out =
      ltb out.partition_id c.count
      && (not (get_or seen out.partition_id false)
          && (out.job_id == c.job_id
              && (out.stage_id == c.stage_id
                  && (length out.sha256 == 64
                      && out.key == key_of c.job_id c.stage_id out.partition_id out.attempt))))

  -- The loop over the outputs; `by_part` has no output for a partition that is not seen.
  unfoldable pub verify :
      Storage
      → Commit
      → List Output
      → List Bool
      → List (Option Output)
      → Result CommitError (List (Option Output))
  unfolding is_valid_output
  verify fs c [] seen by_part = ok by_part
  verify fs c (out ∷ outputs) seen by_part =
      let rest =
        verify fs c outputs (set seen out.partition_id true)
          (set by_part out.partition_id (some out)) in
      if is_valid_output c seen out
      then elim (fs.read out.key) [
        | none ↦ err unreadable_attempt
        | some r ↦
            if r.0 == out.num_bytes && list_beq r.1 out.sha256 then rest else err corrupt_attempt
      ]
      else err invalid_output

  -- After a marker could not be created: an identical one is as good.
  unfoldable pub retry :
      Storage → List ℕ → OutputManifest → Option (List ℕ) → Result CommitError OutputManifest
  retry fs text manifest none = err publish_failed
  retry fs text manifest (some previous) =
      if not fs.openable
      then err publish_failed
      else if fs.intact && list_beq previous text
      then ok manifest
      else err output_committed

  -- The marker that is there after the call, and its result.
  unfoldable pub publish :
      Storage
      → OutputManifest
      → Option (List ℕ)
      → Option (List ℕ) × Result CommitError OutputManifest
  unfolding retry
  publish fs manifest (some previous) =
      (some previous, retry fs (marshal manifest) manifest (some previous))
  publish fs manifest none = elim fs.publication [
    | written ↦ (some (marshal manifest), ok manifest)
    | failed_visible text ↦ (some text, retry fs (marshal manifest) manifest (some text))
    | failed_unseen ↦ (none, err publish_failed)
  ]

  abbrev pub manifest_of_parts : Commit → List (Option Output) → OutputManifest
  manifest_of_parts c by_part = record {
    version = 1;
    job_id = c.job_id;
    task_name = c.task_name;
    partitions = by_part;
  }

  -- CommitDistributedOutput, from the marker that is there.
  unfoldable pub commit_distributed_output :
      Storage → Commit → Option (List ℕ) → Option (List ℕ) × Result CommitError OutputManifest
  unfolding verify publish
  commit_distributed_output fs c marker =
      if c.job_id == 0 || not (length c.outputs == c.count)
      then (marker, err incomplete)
      else if not fs.directory
      then (marker, err no_directory)
      else elim (verify fs c c.outputs (replicate c.count false) (replicate c.count none)) [
        | err e ↦ (marker, err e)
        | ok by_part ↦
            if not fs.encodable
            then (marker, err not_encoded)
            else if not fs.exclusive
            then (marker, err not_exclusive)
            else publish fs (manifest_of_parts c by_part) marker
      ]

  -- Commits to one path, one after the other, each with what the file system answers to it.
  unfoldable pub commits :
      List (Storage × Commit) → Option (List ℕ) → List (Result CommitError OutputManifest)
  unfolding commit_distributed_output
  commits [] marker = []
  commits ((fs, c) ∷ cs) marker =
      let (marker', result) = commit_distributed_output fs c marker in result ∷ commits cs marker'
