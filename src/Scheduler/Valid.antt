-- ===== src/Scheduler/Valid.antt =====
-- scheduler.go: well-formed states of the scheduler, and how a state follows another.
pub mod Asking
pub mod Accepting
pub mod Repairing
pub mod Parents
pub mod Retrying
pub mod Gathering
pub mod Completing
pub mod Running
pub mod Sampling
pub mod Marking
pub mod Pooling
pub mod Scheduling
pub mod Finishing
pub mod Submitting
use go_spark.Prelude.{
  ℕ, zero, suc, ◌+◌, ◌<◌, ◌≤◌, ◌≡◌, refl, sym, subst, Bool, true, false, none, some, List, [], ◌∷◌,
  arith, ◌==◌, All,
}
use go_spark.Prelude.Maps.{lookup, contains, nat_eq, pair_eq}
use go_spark.Planner.{Stage}
use go_spark.Planner.Ordered.{stage_by_id}
use go_spark.Scheduler.{PartitionKey, ExecResult, Task, Job, Scheduler}
use go_spark.Scheduler.Checks.{Answers}
use go_spark.Scheduler.Recovery.{Accepted}
use go_spark.Scheduler.Recovery.Ready.{has}
use go_spark.Scheduler.Recovery.Repairs.{IsReady}
use go_spark.Scheduler.Tasks.{attempts_of}

-- A task of a stage whose attempt has been counted.
pub record IsTask (j : Job) (st : Stage) (s : Scheduler) (t : Task) : Type 0 where
  pub of_job : t.job_id ≡ j.job_id
  pub of_stage : t.stage_id ≡ st.id
  pub saves : t.saves ≡ j.saves
  pub counted : t.attempt < attempts_of (st.id, t.partition_id) s.attempts

-- A result answers a task of its partition.
abbrev pub IsAnswer : Job → Stage → Scheduler → ℕ → ExecResult → Type 0
IsAnswer j st s p res = (t : Task) × IsTask j st s t × (t.partition_id ≡ p) × Answers t st res

-- The results that are accepted answer counted tasks, those of the parents are accepted, too, and the
-- repairs are within their limit.
pub record IsValid (j : Job) (s : Scheduler) : Type 0 where
  pub answers :
      (st : Stage) (p : ℕ) (res : ExecResult)
      → stage_by_id st.id j.stages ≡ some st
      → lookup (st.id, p) s.accepted ≡ some res
      → IsAnswer j st s p res
  pub ready : IsReady j.stages s.accepted
  pub within : s.repairs ≤ j.max_recoveries

-- Without a repair in between, the accepted results stay; attempts are never taken back.
pub record Later (s s' : Scheduler) : Type 0 where
  pub repairs : s.repairs ≤ s'.repairs
  pub stays :
      s'.repairs ≡ s.repairs
      → (key : PartitionKey) → has key s.accepted ≡ true
      → has key s'.accepted ≡ true
  pub attempts : (key : PartitionKey) → attempts_of key s.attempts ≤ attempts_of key s'.attempts

abbrev pub Kept : Job → Scheduler → Scheduler → Type 0
Kept j s s' = IsValid j s' × Later s s'

pub Later-refl : (s : Scheduler) → Later s s
Later-refl s = record { repairs = omega arith; stays = λ e key h. h; attempts = λ key. omega arith }

pub Later-trans : {a b c : Scheduler} → Later a b → Later b c → Later a c
Later-trans f g = record {
  repairs = omega (arith, f.repairs, g.repairs);
  stays = λ e key h.
      g.stays (omega (arith, e, f.repairs, g.repairs)) key
        (f.stays (omega (arith, e, f.repairs, g.repairs)) key h);
  attempts = λ key. omega (arith, f.attempts key, g.attempts key);
}

pub Kept-trans : (j : Job) {a b c : Scheduler} → Later a b → Kept j b c → Kept j a c
Kept-trans j f g = (g.0, Later-trans f g.1)

pub IsTask-Later :
    (j : Job) (st : Stage) {s s' : Scheduler} (t : Task)
    → Later s s'
    → IsTask j st s t
    → IsTask j st s' t
IsTask-Later j st t later h = record {
  of_job = h.of_job;
  of_stage = h.of_stage;
  saves = h.saves;
  counted = omega (arith, h.counted, later.attempts (st.id, t.partition_id));
}

-- The states differ in nothing that the tasks and results depend on.
pub record Same (s s' : Scheduler) : Type 0 where
  pub accepted : s'.accepted ≡ s.accepted
  pub attempts : s'.attempts ≡ s.attempts
  pub repairs : s'.repairs ≡ s.repairs

pub Same-trans : {a b c : Scheduler} → Same a b → Same b c → Same a c
Same-trans f g = record {
  accepted = rw (g.accepted, f.accepted);
  attempts = rw (g.attempts, f.attempts);
  repairs = rw (g.repairs, f.repairs);
}

pub Later-Same : {s s' : Scheduler} → Same s s' → Later s s'
Later-Same e = record {
  repairs = omega (arith, e.repairs);
  stays = λ r key h. rw e.accepted h;
  attempts = λ key. rw e.attempts (omega arith);
}

pub IsValid-Same : (j : Job) {s s' : Scheduler} → Same s s' → IsValid j s → IsValid j s'
IsValid-Same j e v = record {
  answers = λ st p res at got.
      let (t, task, at_p, answers) = v.answers st p res at (rw e.accepted at got) in
      (t, IsTask-Later j st t (Later-Same e) task, at_p, answers);
  ready = subst (IsReady j.stages) (sym e.accepted) v.ready;
  within = omega (arith, e.repairs, v.within);
}

pub Kept-Same : (j : Job) {s s' : Scheduler} → IsValid j s → Same s s' → Kept j s s'
Kept-Same j v e = (IsValid-Same j e v, Later-Same e)
