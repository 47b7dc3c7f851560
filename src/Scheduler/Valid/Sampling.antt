-- ===== src/Scheduler/Valid/Sampling.antt =====
-- scheduler.go: sampleStage against the state; no attempt is counted and no result accepted.
use go_spark.Prelude.{
  ℕ, zero, suc, ◌+◌, ◌-◌, ◌<◌, ◌≤◌, ◌≡◌, ◌⊎◌, refl, sym, subst, inl, inr, some, List, [], ◌∷◌,
  arith, leb, length, true, Bool-cases, ◌&&◌, ◌==◌,
}
use go_spark.Prelude.Maps.{nat_eq}
use go_spark.Prelude.Results.{ok, ◌>>=◌}
use go_spark.Planner.{StageKind, sample, result, shuffle_map, Stage}
use go_spark.Planner.Ordered.{stage_by_id}
use go_spark.Scheduler.{Task, ExecResult, StageKind_beq, Job, Scheduler}
use go_spark.Scheduler.Recovery.{invalidate}
use go_spark.Scheduler.Recovery.Repairs.{IsDag}
use go_spark.Scheduler.Tasks.{World, Outcome, done, lost, failed, tick, pick, Run}
use go_spark.Scheduler.Retry.{recovered}
use go_spark.Scheduler.Waves.{Completion, Wave, add_task}
use go_spark.Scheduler.Samples.{
  Sampled, sampled_by, repaired, sample_task, checked_sample, gather_samples, sample_again,
  sample_completed,
}
use go_spark.Scheduler.Gives.{
  Gives, Gives-ok, Gives-err, Gives->>=, Gives-if, Gives-Option, Gives-imp,
}
use go_spark.Scheduler.Valid.{IsValid, Kept, Same, Same-trans, Kept-trans, IsValid-Same, Later-Same}
use go_spark.Scheduler.Valid.Asking.{pick-Same}
use go_spark.Scheduler.Valid.Accepting.{HasParents}
use go_spark.Scheduler.Valid.Repairing.{recovered-Repaired}
use go_spark.Scheduler.Valid.Gathering.{upstream_of-HasParents}

-- The tasks of the partitions from `p` on.
abbrev pub AreTasks : ℕ → List (Task × ℕ) → Type 0
AreTasks p [] = Unit
AreTasks p (t ∷ ts) = (t.0.partition_id ≡ p) × AreTasks (p + 1) ts

-- A result that is accepted as the sample of a partition.
abbrev pub IsSampleOf : ℕ → ExecResult → Type 0
IsSampleOf p res = (res.kind ≡ sample) × (res.partition_id ≡ p)

StageKind_beq-sample : (k : StageKind) → StageKind_beq k sample ≡ true → k ≡ sample
unfolding StageKind_beq
StageKind_beq-sample sample e = refl
StageKind_beq-sample result e = cc
StageKind_beq-sample shuffle_map e = cc

checked_sample-IsSampleOf :
    (t : Task) (o : Outcome) (res : ExecResult)
    → checked_sample t o ≡ done res
    → IsSampleOf t.partition_id res
unfolding checked_sample
checked_sample-IsSampleOf t (done r) res e =
    elim (Bool-cases (StageKind_beq r.kind sample && r.partition_id == t.partition_id)) [
      | inl checked ↦
          let same : r ≡ res = ground (arith, e, checked) in
          subst (IsSampleOf t.partition_id) same
            (StageKind_beq-sample r.kind (ground (arith, checked)), ground (arith, checked))
      | inr refused ↦ absurd (ground (arith, e, refused))
    ]
checked_sample-IsSampleOf t (lost f) res e = cc
checked_sample-IsSampleOf t failed res e = cc

-- A wave from the partition `p` on, `c` of them at most, that changes nothing.
pub record IsSampleWave (s : Scheduler) (p c : ℕ) (r : Wave × Scheduler) : Type 0 where
  pub same : Same s r.1
  pub to : r.0.next ≤ p + c
  pub tasks : AreTasks p r.0.tasks
  pub next : r.0.next ≡ p + length r.0.tasks
  pub from : p ≤ r.0.next
  pub progress : (r.0.tasks ≡ []) ⊎ (p < r.0.next)

module _ (w : World) (j : Job) (dag : IsDag j.stages) (st : Stage)
    (at : stage_by_id st.id j.stages ≡ some st) where
  -- The state is one to sample from.
  abbrev pub Ready : Scheduler → Type 0
  Ready s = IsValid j s × HasParents j.stages s.accepted st

  pub Ready-Same : (s s' : Scheduler) → Same s s' → Ready s → Ready s'
  Ready-Same s s' same (v, parents) =
      (IsValid-Same j same v, subst (λ m. HasParents j.stages m st) (sym same.accepted) parents)

  empty-IsSampleWave :
      (c p : ℕ) (s s' : Scheduler)
      → Same s s'
      → IsSampleWave s p c (record { tasks = []; next = p }, s')
  empty-IsSampleWave c p s s' same = record {
    same = same;
    to = omega arith;
    from = omega arith;
    tasks = tt;
    next = omega arith;
    progress = inl refl;
  }

  pub gather_samples-IsSampleWave :
      (c p : ℕ) (used : List ℕ) (s : Scheduler)
      → Ready s
      → Gives (IsSampleWave s p c) (gather_samples w j st c p used s)
  unfolding gather_samples add_task
  gather_samples-IsSampleWave zero p used s v =
      Gives-ok
        (empty-IsSampleWave 0 p s s (record { accepted = refl; attempts = refl; repairs = refl }))
  gather_samples-IsSampleWave (suc c) p used s v =
      Gives-if (leb j.num_runners (length used)) _ _
        (λ full. Gives-ok (
          empty-IsSampleWave (suc c) p s s
            (record { accepted = refl; attempts = refl; repairs = refl })))
        (λ more.
          let asked = pick w j used st p s in
          let same : Same s asked.0 = pick-Same w j used st p s in
          let v' = Ready-Same s asked.0 same v in
          Gives-Option asked.1 _ _ (λ e. Gives-ok (empty-IsSampleWave (suc c) p s asked.0 same))
            (λ index e.
              Gives->>= _ (upstream_of-HasParents j asked.0 v'.0 st dag at v'.1) (λ upstream u.
                Gives->>= _ (gather_samples-IsSampleWave c (p + 1) (index ∷ used) asked.0 v')
                  (λ r g. Gives-ok (record {
                    same = Same-trans same g.same;
                    to = omega (arith, g.to);
                    from = omega (arith, g.from);
                    tasks = (refl, g.tasks);
                    next = omega (arith, g.next);
                    progress = inr (omega (arith, g.from));
                  })))))

  -- A sample changes nothing that the tasks depend on, unless there was a repair.
  abbrev pub IsSample : ℕ → Scheduler → Sampled → Scheduler → Type 0
  IsSample p s (sampled_by res index) s' = Same s s' × IsSampleOf p res
  IsSample p s repaired s' = Kept j s s' × (s.repairs < s'.repairs)

  IsSample-Same :
      (p : ℕ) (a b : Scheduler) (r : Sampled) (c : Scheduler)
      → Same a b
      → IsSample p b r c
      → IsSample p a r c
  IsSample-Same p a b (sampled_by res index) c same h = (Same-trans same h.0, h.1)
  IsSample-Same p a b repaired c same h =
      (Kept-trans j (Later-Same same) h.0, omega (arith, same.repairs, h.1))

  abbrev pub Samples : ℕ → Scheduler → Sampled × Scheduler → Type 0
  Samples p s r = IsSample p s r.0 r.1

  again-Samples :
      (p : ℕ) (o : Outcome) (index : ℕ) (s : Scheduler) (failing : Run (Sampled × Scheduler))
      → ((res : ExecResult) → o ≡ done res → IsSampleOf p res)
      → Ready s
      → Gives (Samples p s) failing
      → Gives (Samples p s) (elim o [
        | done res ↦ ok (sampled_by res index, s)
        | lost e ↦ recovered (invalidate j e st s) >>= λ s2. ok (repaired, s2)
        | failed ↦ failing
      ])
  again-Samples p (done res) index s failing is v h =
      Gives-ok (record { accepted = refl; attempts = refl; repairs = refl }, is res refl)
  again-Samples p (lost e) index s failing is v h =
      Gives->>= _ (recovered-Repaired j e st s dag v.0) (λ s' (kept, more). Gives-ok (kept, more))
  again-Samples p failed index s failing is v h = h

  sample_again-Samples :
      (c attempt p : ℕ) (s : Scheduler)
      → Ready s
      → Gives (Samples p s) (sample_again w j c attempt st p s)
  unfolding sample_again
  sample_again-Samples zero attempt p s v = Gives-err tt
  sample_again-Samples (suc c) attempt p s v =
      let asked = pick w j [] st p s in
      let same : Same s (tick asked.0) =
        Same-trans (pick-Same w j [] st p s)
          (record { accepted = refl; attempts = refl; repairs = refl }) in
      let v' = Ready-Same s (tick asked.0) same v in
      Gives-Option asked.1 _ _ (λ e. Gives-err tt)
        (λ index e.
          Gives->>= _ (upstream_of-HasParents j (tick asked.0) v'.0 st dag at v'.1) (λ upstream u.
            Gives-imp
              (again-Samples p (checked_sample (sample_task j st p attempt upstream) _) index
                (tick asked.0) _ (checked_sample-IsSampleOf (sample_task j st p attempt upstream) _)
                v' (sample_again-Samples c (attempt + 1) p (tick asked.0) v'))
              (λ r h. IsSample-Same p s (tick asked.0) r.0 r.1 same h)))

  pub sample_completed-Samples :
      (c : Completion) (s : Scheduler)
      → Ready s
      → Gives (Samples c.task.partition_id s) (sample_completed w j st c s)
  unfolding sample_completed
  sample_completed-Samples c s v =
      again-Samples c.task.partition_id (checked_sample c.task c.outcome) c.worker s _
        (checked_sample-IsSampleOf c.task c.outcome) v
        (sample_again-Samples (j.max_attempts - 1) 1 c.task.partition_id s v)
