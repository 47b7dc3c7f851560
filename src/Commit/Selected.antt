-- ===== src/Commit/Selected.antt =====
-- distributed_output.go: the outputs that are selected from the results of a job that saves.
use go_spark.Prelude.{
  ℕ, suc, ◌+◌, ◌≡◌, ◌∙◌, refl, subst, true, Option-cases, inl, inr, some, List, [], ◌∷◌, arith,
  ◌==◌, length, get_elem?,
}
use go_spark.Prelude.Results.{ok}
use go_spark.Planner.{Stage, result}
use go_spark.Scheduler.{Output, ExecResult, Job, Scheduler}
use go_spark.Scheduler.Checks.{OutputMatches}
use go_spark.Scheduler.Valid.{IsAnswer}
use go_spark.Scheduler.Valid.Finishing.{IsComplete}
use go_spark.Commit.{selected_from, selected_outputs}

-- An output of the job's last stage, of the given partition.
abbrev pub IsOutput : Job → Stage → ℕ → Output → Type 0
IsOutput j last p out = (out.job_id ≡ j.job_id) × (out.stage_id ≡ last.id) × (out.partition_id ≡ p)

-- Each result has the output of its partition, from `p` on.
abbrev HaveOutputs : Job → Stage → ℕ → List ExecResult → Type 0
HaveOutputs j last p [] = Unit
HaveOutputs j last p (r ∷ results) =
    (r.partition_id ≡ p)
    × ((out : Output) × (r.output ≡ some out) × IsOutput j last p out)
    × HaveOutputs j last (p + 1) results

-- The outputs of the partitions from `p` on.
abbrev pub AreOutputs : Job → Stage → ℕ → List Output → Type 0
AreOutputs j last p [] = Unit
AreOutputs j last p (out ∷ outputs) = IsOutput j last p out × AreOutputs j last (p + 1) outputs

selected_from-AreOutputs :
    (j : Job) (last : Stage) (p : ℕ) (results : List ExecResult)
    → HaveOutputs j last p results
    → (l : List Output) × (selected_from p results ≡ ok l)
      × (length l ≡ length results)
      × AreOutputs j last p l
unfolding selected_from
selected_from-AreOutputs j last p [] h = ([], refl, refl, tt)
selected_from-AreOutputs j last p (r ∷ results) (same, (out, at, is), more) =
    let (l, e, count, are) = selected_from-AreOutputs j last (p + 1) results more in
    (out ∷ l, ground (arith, at, same, e), omega (arith, count), (is, are))

answer-output :
    (j : Job) (last : Stage) (s : Scheduler) (p : ℕ) (res : ExecResult)
    → last.kind ≡ result
    → j.saves ≡ true
    → IsAnswer j last s p res
    → (res.partition_id ≡ p) × ((out : Output) × (res.output ≡ some out) × IsOutput j last p out)
answer-output j last s p res kind saves (t, task, at_p, answers) =
    let matches : OutputMatches result true t res.output =
      subst (λ b. OutputMatches result b t res.output) (task.saves ∙ saves)
        (subst (λ k. OutputMatches k t.saves t res.output) kind answers.output_matches) in
    (
      answers.partition ∙ at_p,
      elim (Option-cases res.output) [
        | inl absent ↦ elim (subst (OutputMatches result true t) absent matches) [ ]
        | inr (out, at) ↦
            let (job, stage, partition, attempt) = subst (OutputMatches result true t) at matches in
            (out, at, (job ∙ task.of_job, stage ∙ task.of_stage, partition ∙ at_p))
      ],
    )

have_from :
    (j : Job) (last : Stage) (p : ℕ) (results : List ExecResult)
    → ((i : ℕ) (res : ExecResult)
        → get_elem? results i ≡ some res
        → (res.partition_id ≡ p + i)
          × ((out : Output) × (res.output ≡ some out) × IsOutput j last (p + i) out))
    → HaveOutputs j last p results
have_from j last p [] h = tt
have_from j last p (r ∷ results) h =
    let place : p + 0 ≡ p = omega arith in
    let first =
      subst
        (λ k.
          (r.partition_id ≡ k) × ((out : Output) × (r.output ≡ some out) × IsOutput j last k out))
        place (h 0 r refl) in
    (
      first.0,
      first.1,
      have_from j last (p + 1) results (λ i res at.
          let later : p + suc i ≡ p + 1 + i = omega arith in
          subst
            (λ k.
              (res.partition_id ≡ k)
              × ((out : Output) × (res.output ≡ some out) × IsOutput j last k out))
            later (h (suc i) res at)),
    )

-- From the results that scheduleResults returns for a job that saves, SelectedOutputs never fails,
-- and selects one output for each partition of the last stage, of this job and stage, in the order
-- of the partitions.
pub selected_outputs-IsComplete :
    (j : Job) (last : Stage) (r : List ExecResult × Scheduler)
    → last.kind ≡ result
    → j.saves ≡ true
    → IsComplete j last r
    → (l : List Output) × (selected_outputs r.0 last.num_partitions ≡ ok l)
      × (length l ≡ last.num_partitions)
      × AreOutputs j last 0 l
unfolding selected_outputs
selected_outputs-IsComplete j last r kind saves complete =
    let have = have_from j last 0 r.0 (λ i res at.
      subst
        (λ k.
          (res.partition_id ≡ k)
          × ((out : Output) × (res.output ≡ some out) × IsOutput j last k out))
        (omega arith) (answer-output j last r.1 i res kind saves (complete.answers i res at))) in
    let (l, e, count, are) = selected_from-AreOutputs j last 0 r.0 have in
    let all : (length r.0 == last.num_partitions) ≡ true = ground (arith, complete.count) in
    (l, ground (arith, all, e), omega (arith, count, complete.count), are)
