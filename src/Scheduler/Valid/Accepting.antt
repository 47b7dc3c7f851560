-- ===== src/Scheduler/Valid/Accepting.antt =====
-- scheduler.go: the acceptance of a result, against the state.
use go_spark.Prelude.{
  ℕ, suc, ◌+◌, ◌<◌, ◌≤◌, ◌≡◌, refl, subst, Bool-cases, inl, inr, true, some, List, [], ◌∷◌, arith,
  if◌then◌else◌, All, All-imp, All-zip,
}
use go_spark.Prelude.Maps.{lookup, assign, contains, nat_eq, pair_eq, lookup-assign}
use go_spark.Planner.{Stage}
use go_spark.Planner.Stages.{Numbered}
use go_spark.Planner.Ordered.{stage_by_id}
use go_spark.Scheduler.{
  PartitionKey, ExecResult, Task, Job, Scheduler, validate_task_result, remember_worker_cache,
}
use go_spark.Scheduler.Checks.{Answers, validated}
use go_spark.Scheduler.Recovery.{Accepted}
use go_spark.Scheduler.Recovery.Ready.{has}
use go_spark.Scheduler.Recovery.Repairs.{IsReadyStage, IsDag}
use go_spark.Scheduler.Tasks.{World, Outcome, done, lost, failed, checked, accept_result}
use go_spark.Scheduler.Gives.{Gives, Gives-ok, Gives-err, Gives-if}
use go_spark.Scheduler.Valid.{IsTask, IsAnswer, IsValid, Later, Kept, IsTask-Later}

-- All partitions of the parents of a stage are accepted.
abbrev pub HasParents : List Stage → Accepted → Stage → Type 0
HasParents stages m st =
    (q r : ℕ) (parent : Stage)
    → contains q st.parents ≡ true
    → stage_by_id q stages ≡ some parent
    → r < parent.num_partitions
    → has (q, r) m ≡ true

pub HasParents-Later :
    (stages : List Stage) (st : Stage) {s s' : Scheduler}
    → Later s s'
    → s'.repairs ≡ s.repairs
    → HasParents stages s.accepted st
    → HasParents stages s'.accepted st
HasParents-Later stages st later e h q r parent in_parents at lt =
    later.stays e (q, r) (h q r parent in_parents at lt)

stage_by_id-from :
    (i : ℕ) (stages : List Stage)
    → Numbered i stages
    → All (λ st. (i ≤ st.id) × (stage_by_id st.id stages ≡ some st)) stages
unfolding stage_by_id
stage_by_id-from i [] n = tt
stage_by_id-from i (st ∷ stages) n =
    let id : st.id ≡ i = n.0 in
    (
      (omega arith, ground arith),
      All-imp _ _ stages
          (λ x h. (omega (arith, h.0), let later = h.0 in let at = h.1 in ground arith))
          (stage_by_id-from (suc i) stages n.1),
    )

-- A stage of numbered stages is found by its ID.
pub stage_by_id-Numbered :
    (stages : List Stage)
    → Numbered 0 stages
    → All (λ st. stage_by_id st.id stages ≡ some st) stages
stage_by_id-Numbered stages n = All-imp _ _ stages (λ st h. h.1) (stage_by_id-from 0 stages n)

module _ (j : Job) (st : Stage) (t : Task) (res : ExecResult) (s s' : Scheduler) where
  abbrev Accepts : Type 0
  Accepts =
      (s'.accepted ≡ assign (st.id, t.partition_id) res s.accepted)
      × (s'.attempts ≡ s.attempts)
      × (s'.repairs ≡ s.repairs)

  has-Accepts :
      Accepts
      → (key : PartitionKey)
      → has key s'.accepted
        ≡ (if pair_eq.beq (st.id, t.partition_id) key then true else has key s.accepted)
  has-Accepts a key =
      let set : s'.accepted ≡ assign (st.id, t.partition_id) res s.accepted = a.0 in
      rw set (ground (arith, lookup-assign key (st.id, t.partition_id) res s.accepted))

  accept_result-Later : Accepts → Later s s'
  accept_result-Later a = record {
    repairs = omega (arith, a.2);
    stays = λ e key h. ground (arith, has-Accepts a key, h);
    attempts = λ key. rw a.1 (omega arith);
  }

  lookup-Accepts :
      Accepts
      → (key : PartitionKey)
      → lookup key s'.accepted
        ≡ (if pair_eq.beq (st.id, t.partition_id) key then some res else lookup key s.accepted)
  lookup-Accepts a key =
      let set : s'.accepted ≡ assign (st.id, t.partition_id) res s.accepted = a.0 in
      rw set (lookup-assign key (st.id, t.partition_id) res s.accepted)

  same_stage :
      (st' : Stage)
      → stage_by_id st.id j.stages ≡ some st
      → stage_by_id st'.id j.stages ≡ some st'
      → st.id ≡ st'.id
      → st ≡ st'
  same_stage st' at at' e =
      let found : stage_by_id st'.id j.stages ≡ some st =
        subst (λ n. stage_by_id n j.stages ≡ some st) e at in
      cc

  IsAnswer-Accepts :
      Accepts
      → IsValid j s
      → IsTask j st s t
      → Answers t st res
      → stage_by_id st.id j.stages ≡ some st
      → (st' : Stage) (p : ℕ) (res' : ExecResult) → stage_by_id st'.id j.stages ≡ some st'
      → lookup (st'.id, p) s'.accepted ≡ some res'
      → IsAnswer j st' s' p res'
  IsAnswer-Accepts a v task answers at st' p res' at' got =
      let looked = lookup-Accepts a (st'.id, p) in
      elim (Bool-cases (pair_eq.beq (st.id, t.partition_id) (st'.id, p))) [
        | inl hit ↦
            let same_res : res ≡ res' = ground (arith, looked, hit, got) in
            let here : IsAnswer j st s' p res =
              (t, IsTask-Later j st t (accept_result-Later a) task, ground (arith, hit), answers) in
            subst (λ x. IsAnswer j x s' p res') (same_stage st' at at' (ground (arith, hit)))
              (subst (IsAnswer j st s' p) same_res here)
        | inr miss ↦
            let (t', task', at_p, answers') =
              v.answers st' p res' at' (ground (arith, looked, miss, got)) in
            (t', IsTask-Later j st' t' (accept_result-Later a) task', at_p, answers')
      ]

  IsReadyStage-Accepts :
      Accepts
      → HasParents j.stages s.accepted st
      → stage_by_id st.id j.stages ≡ some st
      → (st' : Stage) → stage_by_id st'.id j.stages ≡ some st'
      → IsReadyStage j.stages s.accepted st'
      → IsReadyStage j.stages s'.accepted st'
  IsReadyStage-Accepts a parents at st' at' before p q r parent lt got in_parents found lt' =
      (accept_result-Later a).stays a.2 (q, r)
        (elim (Bool-cases (pair_eq.beq (st.id, t.partition_id) (st'.id, p))) [
          | inl hit ↦
              subst (HasParents j.stages s.accepted) (same_stage st' at at' (ground (arith, hit)))
                parents q r parent in_parents found lt'
          | inr miss ↦
              before p q r parent lt (ground (arith, has-Accepts a (st'.id, p), miss, got))
                in_parents found lt'
        ])

  accept_result-IsValid :
      Accepts
      → IsDag j.stages
      → IsValid j s
      → IsTask j st s t
      → Answers t st res
      → HasParents j.stages s.accepted st
      → stage_by_id st.id j.stages ≡ some st
      → IsValid j s'
  accept_result-IsValid a dag v task answers parents at = record {
    answers = IsAnswer-Accepts a v task answers at;
    ready =
        All-imp _ _ j.stages (λ st' h. IsReadyStage-Accepts a parents at st' h.0 h.1)
          (All-zip _ _ j.stages (stage_by_id-Numbered j.stages dag.0) v.ready);
    within = omega (arith, a.2, v.within);
  }

-- A result that is accepted leaves a well-formed state, in which it is looked up.
pub accept_result-Kept :
    (w : World) (j : Job) (st : Stage) (index : ℕ) (t : Task) (res : ExecResult) (s : Scheduler)
    → IsDag j.stages
    → IsValid j s
    → IsTask j st s t
    → Answers t st res
    → HasParents j.stages s.accepted st
    → stage_by_id st.id j.stages ≡ some st
    → Gives
        (λ s'.
          Kept j s s'
          × (s'.repairs ≡ s.repairs)
          × (lookup (st.id, t.partition_id) s'.accepted ≡ some res))
        (accept_result w j st index t res s)
unfolding accept_result
accept_result-Kept w j st index t res s dag v task answers parents at =
    Gives-if (w.on_task_complete s.clock t res) _ _
      (λ e.
        let s' : Scheduler = record s {
          accepted = assign (st.id, t.partition_id) res s.accepted;
          cache_locations = remember_worker_cache index res.cached res.dropped s.cache_locations;
          clock = s.clock + 1;
        } in
        let a : Accepts j st t res s s' = (refl, refl, refl) in
        Gives-ok (
          (
            accept_result-IsValid j st t res s s' a dag v task answers parents at,
            accept_result-Later j st t res s s' a,
          ),
          refl,
          ground (arith, lookup-Accepts j st t res s s' a (st.id, t.partition_id)),
        ))
      (λ e. Gives-err tt)

-- What `checked` accepts answers the task.
pub checked-Answers :
    (t : Task) (st : Stage) (o : Outcome) (res : ExecResult)
    → checked t st o ≡ done res
    → Answers t st res
unfolding checked
checked-Answers t st (done r) res e = elim (Bool-cases (validate_task_result t st r)) [
  | inl fits ↦
      let same : r ≡ res = ground (arith, fits, e) in
      subst (Answers t st) same (validated t st r fits)
  | inr differs ↦ absurd (ground (arith, differs, e))
]
checked-Answers t st (lost f) res e = cc
checked-Answers t st failed res e = cc
