-- ===== src/Scheduler/Valid/Completing.antt =====
-- scheduler.go: the completions of a wave of runStage and the loop over the waves, against the state.
use go_spark.Prelude.{
  ℕ, ◌+◌, ◌*◌, ◌<◌, ◌≤◌, ◌≡◌, refl, Bool-cases, inl, inr, true, some, List, [], ◌∷◌, arith, ◌==◌,
  if◌then◌else◌, All, All-imp,
}
use go_spark.Prelude.Maps.{nat_eq, pair_eq}
use go_spark.Prelude.Results.{ok}
use go_spark.Planner.{Stage}
use go_spark.Planner.Ordered.{stage_by_id}
use go_spark.Scheduler.{Task, Job, Scheduler}
use go_spark.Scheduler.Recovery.Ready.{has}
use go_spark.Scheduler.Recovery.Repairs.{IsDag}
use go_spark.Scheduler.Tasks.{World, Outcome, done, lost, failed, checked}
use go_spark.Scheduler.Waves.{Completion, Progress, go_on, stop, run_tasks, complete, complete_all}
use go_spark.Scheduler.Gives.{Gives, Gives-ok, Gives-err, Gives->>=, Gives-if, Gives-imp}
use go_spark.Scheduler.Valid.{IsTask, IsValid, Later, Kept, Later-refl, Kept-trans, IsTask-Later}
use go_spark.Scheduler.Valid.Accepting.{
  HasParents, HasParents-Later, accept_result-Kept, checked-Answers,
}
use go_spark.Scheduler.Valid.Repairing.{recovered-Repaired}
use go_spark.Scheduler.Valid.Parents.{lookup-has}
use go_spark.Scheduler.Valid.Retrying.{stage_fuel, ensure_retry-IsEnsured}
use go_spark.Scheduler.Valid.Gathering.{partitions_of}

module _ (w : World) (j : Job) (dag : IsDag j.stages) (fuel : ℕ) (st : Stage)
    (at : stage_by_id st.id j.stages ≡ some st) (enough : (st.id + 1) * stage_fuel j ≤ fuel) where
  -- The partitions are accepted and nothing was repaired, or there was a repair.
  abbrev pub IsProgress : ℕ → List ℕ → Progress → Scheduler → Type 0
  IsProgress before ids go_on s' =
      (s'.repairs ≡ before) × All (λ q. has (st.id, q) s'.accepted ≡ true) ids
  IsProgress before ids stop s' = before < s'.repairs

  retried-IsProgress :
      (before p : ℕ) (s : Scheduler)
      → before ≤ s.repairs
      → has (st.id, p) s.accepted ≡ true
      → IsProgress before (p ∷ []) (if s.repairs == before then go_on else stop) s
  retried-IsProgress before p s later h = elim (Bool-cases (s.repairs == before)) [
    | inl same ↦ rw same (ground (arith, same), (h, tt))
    | inr more ↦ rw more (ground (arith, more, later))
  ]

  complete-IsProgress :
      (before : ℕ) (c : Completion) (s : Scheduler) (o : Outcome)
      → checked c.task st c.outcome ≡ o
      → s.repairs ≡ before
      → IsValid j s
      → IsTask j st s c.task
      → HasParents j.stages s.accepted st
      → Gives
          (λ r. Kept j s r.1 × IsProgress before (c.task.partition_id ∷ []) r.0 r.1)
          (complete w j fuel before st c s)
  unfolding complete
  complete-IsProgress before c s (done res) is same v task parents =
      rw (is, complete)
        (Gives->>= _
          (accept_result-Kept w j st c.worker c.task res s dag v task
            (checked-Answers c.task st c.outcome res is) parents at)
          (λ s' (kept, unrepaired, got). Gives-ok (
            kept,
            (
              omega (arith, unrepaired, same),
              (lookup-has (st.id, c.task.partition_id) s'.accepted res got, tt),
            ),
          )))
  complete-IsProgress before c s (lost e) is same v task parents =
      rw (is, complete)
        (Gives->>= _ (recovered-Repaired j e st s dag v)
          (λ s' (kept, more). Gives-ok (kept, omega (arith, more, same))))
  complete-IsProgress before c s failed is same v task parents =
      rw (is, complete)
        (Gives-if (j.max_attempts == 1) _ _ (λ e. Gives-err tt)
          (λ e.
            Gives->>= _ (ensure_retry-IsEnsured w j dag fuel st c.task.partition_id 1 s at v enough)
              (λ r (kept, got). Gives-ok (
                kept,
                retried-IsProgress before c.task.partition_id r.1
                    (omega (arith, kept.1.repairs, same))
                    (lookup-has (st.id, c.task.partition_id) r.1.accepted r.0 got),
              ))))

  -- What the completions of tasks leave.
  abbrev pub CompletesAll : ℕ → List (Task × ℕ) → Scheduler → Progress × Scheduler → Type 0
  CompletesAll before tasks s r = Kept j s r.1 × IsProgress before (partitions_of tasks) r.0 r.1

  more-IsProgress :
      (before p : ℕ) (ids : List ℕ) (s s' : Scheduler) (n : Progress)
      → Later s s'
      → s.repairs ≡ before
      → has (st.id, p) s.accepted ≡ true
      → IsProgress before ids n s'
      → IsProgress before (p ∷ ids) n s'
  more-IsProgress before p ids s s' go_on later same h (unrepaired, all) =
      (unrepaired, (later.stays (omega (arith, same, unrepaired)) (st.id, p) h, all))
  more-IsProgress before p ids s s' stop later same h more = more

  next_completion :
      (before clock index : ℕ) (t : Task) (tasks : List (Task × ℕ)) (s : Scheduler) (n : Progress)
      (s' : Scheduler)
      → Kept j s s'
      → IsProgress before (t.partition_id ∷ []) n s'
      → (s'.repairs ≡ before
          → Gives
              (CompletesAll before tasks s')
              (complete_all w j fuel before st (run_tasks w j clock tasks) s'))
      → Gives (CompletesAll before ((t, index) ∷ tasks) s) (elim n [
        | stop ↦ ok (stop, s')
        | go_on ↦ complete_all w j fuel before st (run_tasks w j clock tasks) s'
      ])
  next_completion before clock index t tasks s stop s' kept more rest = Gives-ok (kept, more)
  next_completion before clock index t tasks s go_on s' kept (unrepaired, (first, u)) rest =
      Gives-imp (rest unrepaired) (λ r (kept', progress). (
        Kept-trans j kept.1 kept',
        more-IsProgress before t.partition_id (partitions_of tasks) s' r.1 r.0 kept'.1 unrepaired
            first progress,
      ))

  pub complete_all-CompletesAll :
      (before clock : ℕ) (tasks : List (Task × ℕ)) (s : Scheduler)
      → s.repairs ≡ before
      → IsValid j s
      → All (λ (x : Task × ℕ). IsTask j st s x.0) tasks
      → HasParents j.stages s.accepted st
      → Gives
          (CompletesAll before tasks s)
          (complete_all w j fuel before st (run_tasks w j clock tasks) s)
  unfolding complete_all run_tasks
  complete_all-CompletesAll before clock [] s same v a parents =
      let still : (s.repairs == before) ≡ true = ground (arith, same) in
      rw still (Gives-ok ((v, Later-refl s), (same, tt)))
  complete_all-CompletesAll before clock ((t, index) ∷ tasks) s same v a parents =
      Gives->>= _ (complete-IsProgress before _ s _ refl same v a.0 parents) (λ r (kept, progress).
        next_completion before (clock + 1) index t tasks s r.0 r.1 kept progress (λ unrepaired.
          complete_all-CompletesAll before (clock + 1) tasks r.1 unrepaired kept.0
            (All-imp _ _ tasks (λ x h. IsTask-Later j st x.0 kept.1 h) a.1)
            (HasParents-Later j.stages st kept.1 (omega (arith, same, unrepaired)) parents)))
