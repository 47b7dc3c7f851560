-- ===== src/Saves/Parts.antt =====
-- distributed_output.go: the manifest of outputs that are in the order of their partitions.
use go_spark.Prelude.{
  ℕ, zero, suc, ◌+◌, ◌≡◌, refl, sym, ap, subst, ◌∙◌, Bool, Bool-cases, inl, inr, true, false, not,
  ◌&&◌, ◌||◌, Option, Option-cases, none, some, List, [], ◌∷◌, ◌++◌, append_assoc, arith, ◌==◌, map,
  length, length-append, set, replicate, if◌then◌else◌,
}
use go_spark.Prelude.Maps.{list_beq, list_beq_iff}
use go_spark.Prelude.Results.{Result, ok, err, Result-cases}
use go_spark.Planner.{Stage}
use go_spark.Scheduler.{Output, Job}
use go_spark.Commit.{
  CommitError, incomplete, missing_output, invalid_output, unreadable_attempt, corrupt_attempt,
  output_committed, publish_failed, OutputManifest, Storage, Publication, written, failed_visible,
  failed_unseen, no_directory, not_encoded, not_exclusive, Commit, is_valid_output, verify, retry,
  publish, manifest_of_parts, commit_distributed_output,
}
use go_spark.Commit.Selected.{AreOutputs}

set-append :
    {A : Type 0} (pre post : List A) (i : ℕ) (x v : A)
    → length pre ≡ i
    → set (pre ++ x ∷ post) i v ≡ (pre ++ v ∷ []) ++ post
set-append [] post zero x v e = refl
set-append [] post (suc i) x v e = absurd (omega (arith, e))
set-append (y ∷ pre) post zero x v e = absurd (omega (arith, e))
set-append (y ∷ pre) post (suc i) x v e = ap (◌∷◌ y) (set-append pre post i x v (omega (arith, e)))

-- The errors of a commit that is complete.
abbrev pub IsRefusal : CommitError → Type 0
IsRefusal incomplete = ⊥
IsRefusal missing_output = ⊥
IsRefusal e = Unit

abbrev Refuses : {A : Type 0} → Result CommitError A → Type 0
Refuses r = (e : CommitError) → r ≡ err e → IsRefusal e

refused_by :
    {A : Type 0} {r : Result CommitError A} (d e : CommitError)
    → IsRefusal d
    → r ≡ err e
    → r ≡ err d
    → IsRefusal e
refused_by d e h at is = let same : d ≡ e = cc in subst IsRefusal same h

module _ (key_of : ℕ → ℕ → ℕ → ℕ → ℕ) (marshal : OutputManifest → List ℕ) where
  -- The step of the loop that did not fail.
  verify-next :
      (fs : Storage) (c : Commit) (out : Output) (outputs : List Output) (seen : List Bool)
      (by_part parts : List (Option Output))
      → verify key_of marshal fs c (out ∷ outputs) seen by_part ≡ ok parts
      → verify key_of marshal fs c outputs
          (set seen out.partition_id true)
          (set by_part out.partition_id (some out))
        ≡ ok parts
  unfolding verify
  verify-next fs c out outputs seen by_part parts e =
      elim (Bool-cases (is_valid_output key_of marshal c seen out)) [
        | inr refused ↦ absurd (ground (arith, e, refused))
        | inl valid ↦ elim (Option-cases (fs.read out.key)) [
          | inl missing ↦ absurd (ground (arith, e, valid, missing))
          | inr (r, at) ↦ elim (Bool-cases (r.0 == out.num_bytes && list_beq r.1 out.sha256)) [
            | inl same ↦ ground (arith, e, valid, at, same)
            | inr differs ↦ absurd (ground (arith, e, valid, at, differs))
          ]
        ]
      ]

  -- Outputs in order fill the partitions from their first on.
  verify-parts :
      (fs : Storage) (c : Commit) (j : Job) (last : Stage) (p : ℕ) (outputs : List Output)
      (seen : List Bool) (pre parts : List (Option Output))
      → AreOutputs j last p outputs
      → length pre ≡ p
      → verify key_of marshal fs c outputs seen (pre ++ replicate (length outputs) none) ≡ ok parts
      → parts ≡ pre ++ map some outputs
  unfolding verify
  verify-parts fs c j last p [] seen pre parts are count e = cc
  verify-parts fs c j last p (out ∷ outputs) seen pre parts (is, are) count e =
      let place : set (pre ++ none ∷ replicate (length outputs) none) out.partition_id (some out)
          ≡ (pre ++ some out ∷ []) ++ replicate (length outputs) none =
        set-append pre _ out.partition_id none (some out) (count ∙ sym is.2) in
      verify-parts fs c j last (p + 1) outputs _ (pre ++ some out ∷ []) parts are
        (length-append pre (some out ∷ []) ∙ omega (arith, count))
        (subst
          (λ l. verify key_of marshal fs c outputs (set seen out.partition_id true) l ≡ ok parts)
          place (verify-next fs c out outputs seen _ parts e))
      ∙ append_assoc pre (some out ∷ []) (map some outputs)

  retry-ok :
      (fs : Storage) (text previous : List ℕ) (m found : OutputManifest)
      → retry key_of marshal fs text m (some previous) ≡ ok found
      → (found ≡ m) × (previous ≡ text)
  unfolding retry
  retry-ok fs text previous m found e = elim (Bool-cases fs.openable) [
    | inr closed ↦ absurd (ground (arith, e, closed))
    | inl opened ↦ elim (Bool-cases (fs.intact && list_beq previous text)) [
      | inr differs ↦ absurd (ground (arith, e, opened, differs))
      | inl same ↦
          (ground (arith, e, opened, same), (list_beq_iff previous text).0 (ground (arith, same)))
    ]
  ]

  -- A manifest that is published is the given one, and the marker holds it.
  abbrev IsPublished :
      OutputManifest → OutputManifest → Option (List ℕ) × Result CommitError OutputManifest → Type 0
  IsPublished m found r = r.1 ≡ ok found → (found ≡ m) × (r.0 ≡ some (marshal m))

  created-IsPublished :
      (fs : Storage) (m found : OutputManifest) (p : Publication)
      → IsPublished m found (elim p [
        | written ↦ (some (marshal m), ok m)
        | failed_visible text ↦ (some text, retry key_of marshal fs (marshal m) m (some text))
        | failed_unseen ↦ (none, err publish_failed)
      ])
  created-IsPublished fs m found written e = (cc, refl)
  created-IsPublished fs m found (failed_visible text) e =
      let (same, whole) = retry-ok fs (marshal m) text m found e in (same, ap (λ x. some x) whole)
  created-IsPublished fs m found failed_unseen e = cc

  publish-IsPublished :
      (fs : Storage) (m found : OutputManifest) (marker : Option (List ℕ))
      → IsPublished m found (publish key_of marshal fs m marker)
  unfolding publish
  publish-IsPublished fs m found none e = created-IsPublished fs m found fs.publication e
  publish-IsPublished fs m found (some previous) e =
      let (same, text) = retry-ok fs (marshal m) previous m found e in (same, ap (λ x. some x) text)

  verify-Refuses :
      (fs : Storage) (c : Commit) (outputs : List Output) (seen : List Bool)
      (by_part : List (Option Output))
      → Refuses (verify key_of marshal fs c outputs seen by_part)
  unfolding verify
  verify-Refuses fs c [] seen by_part e at = cc
  verify-Refuses fs c (out ∷ outputs) seen by_part e at =
      elim (Bool-cases (is_valid_output key_of marshal c seen out)) [
        | inr refused ↦ refused_by invalid_output e tt at (ground (arith, refused))
        | inl valid ↦ elim (Option-cases (fs.read out.key)) [
          | inl missing ↦ refused_by unreadable_attempt e tt at (ground (arith, valid, missing))
          | inr (r, got) ↦ elim (Bool-cases (r.0 == out.num_bytes && list_beq r.1 out.sha256)) [
            | inl same ↦
                verify-Refuses fs c outputs (set seen out.partition_id true)
                  (set by_part out.partition_id (some out)) e (ground (arith, at, valid, got, same))
            | inr differs ↦ refused_by corrupt_attempt e tt at (ground (arith, valid, got, differs))
          ]
        ]
      ]

  retry-Refuses :
      (fs : Storage) (text previous : List ℕ) (m : OutputManifest)
      → Refuses (retry key_of marshal fs text m (some previous))
  unfolding retry
  retry-Refuses fs text previous m e at = elim (Bool-cases fs.openable) [
    | inr closed ↦ refused_by publish_failed e tt at (ground (arith, closed))
    | inl opened ↦ elim (Bool-cases (fs.intact && list_beq previous text)) [
      | inr differs ↦ refused_by output_committed e tt at (ground (arith, opened, differs))
      | inl same ↦ absurd (ground (arith, at, opened, same))
    ]
  ]

  created-Refuses :
      (fs : Storage) (m : OutputManifest) (p : Publication)
      → Refuses
          (elim p as (λ x. Option (List ℕ) × Result CommitError OutputManifest) [
            | written ↦ (some (marshal m), ok m)
            | failed_visible text ↦ (some text, retry key_of marshal fs (marshal m) m (some text))
            | failed_unseen ↦ (none, err publish_failed)
          ]).1
  created-Refuses fs m written e at = cc
  created-Refuses fs m (failed_visible text) e at = retry-Refuses fs (marshal m) text m e at
  created-Refuses fs m failed_unseen e at = refused_by publish_failed e tt at refl

  publish-Refuses :
      (fs : Storage) (m : OutputManifest) (marker : Option (List ℕ))
      → Refuses (publish key_of marshal fs m marker).1
  unfolding publish
  publish-Refuses fs m none e at = created-Refuses fs m fs.publication e at
  publish-Refuses fs m (some previous) e at = retry-Refuses fs (marshal m) previous m e at

  -- What a commit of outputs in the order of their partitions returns: the manifest of its job with all
  -- of them, which the marker holds then.
  abbrev pub IsCommitted : Commit → Option (List ℕ) × Result CommitError OutputManifest → Type 0
  IsCommitted c (marker, ok m) =
      (marker ≡ some (marshal m))
      × (m.job_id ≡ c.job_id)
      × (m.task_name ≡ c.task_name)
      × (m.partitions ≡ map some c.outputs)
  IsCommitted c (marker, err e) = IsRefusal e

  IsCommitted-from :
      (c : Commit) (r : Option (List ℕ) × Result CommitError OutputManifest)
      → ((m : OutputManifest)
          → r.1 ≡ ok m
          → (r.0 ≡ some (marshal m))
            × (m.job_id ≡ c.job_id)
            × (m.task_name ≡ c.task_name)
            × (m.partitions ≡ map some c.outputs))
      → Refuses r.1
      → IsCommitted c r
  IsCommitted-from c (marker, ok m) f g = f m refl
  IsCommitted-from c (marker, err e) f g = g e refl

  checked :
      (marker : Option (List ℕ)) (c : Commit) (b : Bool) (e : CommitError)
      (r : Option (List ℕ) × Result CommitError OutputManifest)
      → IsRefusal e
      → IsCommitted c r
      → IsCommitted c (if b then (marker, err e) else r)
  checked marker c true e r refusal h = refusal
  checked marker c false e r refusal h = h

  pub commit_distributed_output-IsCommitted :
      (fs : Storage) (c : Commit) (j : Job) (last : Stage) (marker : Option (List ℕ))
      → (c.job_id == 0) ≡ false
      → length c.outputs ≡ c.count
      → AreOutputs j last 0 c.outputs
      → IsCommitted c (commit_distributed_output key_of marshal fs c marker)
  unfolding commit_distributed_output
  commit_distributed_output-IsCommitted fs c j last marker named all are =
      let some_job : (c.job_id == 0 || not (length c.outputs == c.count)) ≡ false =
        ground (arith, named, all) in
      let slots : List (Option Output) = replicate c.count none in
      elim (Result-cases (verify key_of marshal fs c c.outputs (replicate c.count false) slots)) [
        | inr (e, refused) ↦
            rw (some_job, refused, commit_distributed_output)
              (checked marker c (not fs.directory) no_directory _ tt
                (verify-Refuses fs c c.outputs (replicate c.count false) slots e refused))
        | inl (by_part, verified) ↦
            let parts : by_part ≡ map some c.outputs =
              verify-parts fs c j last 0 c.outputs (replicate c.count false) [] by_part are refl (
                subst
                  (λ n.
                    verify key_of marshal fs c c.outputs (replicate c.count false)
                      (replicate n none)
                    ≡ ok by_part)
                  (sym all) verified) in
            let m = manifest_of_parts key_of marshal c by_part in
            rw (some_job, verified, commit_distributed_output)
              (checked marker c (not fs.directory) no_directory _ tt (
                checked marker c (not fs.encodable) not_encoded _ tt (
                  checked marker c (not fs.exclusive) not_exclusive _ tt (
                    IsCommitted-from c (publish key_of marshal fs m marker)
                      (λ found e.
                        let (same, held) = publish-IsPublished fs m found marker e in
                        (
                          held ∙ ap (λ x. some (marshal x)) (sym same),
                          ap (λ x. x.job_id) same,
                          ap (λ x. x.task_name) same,
                          ap (λ x. x.partitions) same ∙ parts,
                        ))
                      (publish-Refuses fs m marker)))))
      ]
