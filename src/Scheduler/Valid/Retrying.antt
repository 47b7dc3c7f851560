-- ===== src/Scheduler/Valid/Retrying.antt =====
-- scheduler.go: ensureRetry against the state, and the fuel that it takes: a stage by its place in the
-- plan, a round by the repairs and failures that are left.
use go_spark.Prelude.{
  ℕ, zero, suc, ◌+◌, ◌-◌, ◌*◌, ◌<◌, ◌≤◌, ◌≡◌, refl, Bool-cases, inl, inr, none, some, List, [],
  arith, ◌==◌, leb,
}
use native.Mathlib.Nat.{mul-le-mul_right}
use go_spark.Prelude.Maps.{lookup, nat_eq, pair_eq}
use go_spark.Prelude.Results.{ok}
use go_spark.Planner.{Stage}
use go_spark.Planner.Ordered.{stage_by_id}
use go_spark.Scheduler.{Manifest, ExecResult, Task, Job, Scheduler}
use go_spark.Scheduler.Checks.{Answers}
use go_spark.Scheduler.Recovery.Repairs.{IsDag}
use go_spark.Scheduler.Tasks.{
  World, Outcome, done, lost, failed, tick, make_task, count_attempt, pick,
}
use go_spark.Scheduler.Retry.{
  Attempted, finished, again, Ensure, settle, attempt_task, retry_loop, ensure_retry,
}
use go_spark.Scheduler.Gives.{
  Gives, Gives-ok, Gives-err, Gives->>=, Gives-if, Gives-Option, Gives-imp,
}
use go_spark.Scheduler.Valid.{
  IsTask, IsValid, Later, Kept, Same, Same-trans, Later-refl, Later-trans, Kept-trans, IsValid-Same,
  Later-Same, IsTask-Later,
}
use go_spark.Scheduler.Valid.Asking.{
  pick-Same, check_canceled-Same, count_attempt-Later, count_attempt-IsValid, make_task-IsTask,
}
use go_spark.Scheduler.Valid.Accepting.{
  HasParents, HasParents-Later, accept_result-Kept, checked-Answers,
}
use go_spark.Scheduler.Valid.Repairing.{recovered-Repaired}
use go_spark.Scheduler.Valid.Parents.{Ensures, EnsuresAll, ensure_parents-Kept, find-IsParent}

-- What ensureRetry gives: the accepted result of the partition.
abbrev pub IsEnsured : Job → Stage → ℕ → Scheduler → ExecResult × Scheduler → Type 0
IsEnsured j st p s r = Kept j s r.1 × (lookup (st.id, p) r.1.accepted ≡ some r.0)

-- The rounds that are left after `failures`.
abbrev rounds : Job → ℕ → Scheduler → ℕ
rounds j failures s = (j.max_recoveries - s.repairs) + (j.max_attempts - failures)

-- The fuel for a stage.
abbrev pub stage_fuel : Job → ℕ
stage_fuel j = j.max_recoveries + j.max_attempts + 1

module _ (w : World) (j : Job) (dag : IsDag j.stages) where
  -- What an attempt leaves: the accepted result, or fewer rounds.
  abbrev IsNext : Stage → ℕ → ℕ → Scheduler → Attempted → Scheduler → Type 0
  IsNext st p failures s (finished res) s' = lookup (st.id, p) s'.accepted ≡ some res
  IsNext st p failures s (again failures') s' = rounds j failures' s' < rounds j failures s

  settle-IsNext :
      (st : Stage) (failures index : ℕ) (t : Task) (o : Outcome) (s : Scheduler)
      → stage_by_id st.id j.stages ≡ some st
      → IsValid j s
      → IsTask j st s t
      → HasParents j.stages s.accepted st
      → ((res : ExecResult) → o ≡ done res → Answers t st res)
      → Gives
          (λ n. Kept j s n.1 × IsNext st t.partition_id failures s n.0 n.1)
          (settle w j st failures index t o s)
  unfolding settle
  settle-IsNext st failures index t (done res) s at v task parents f =
      Gives->>= _ (accept_result-Kept w j st index t res s dag v task (f res refl) parents at)
        (λ s' (kept, same, got). Gives-ok (kept, got))
  settle-IsNext st failures index t (lost e) s at v task parents f =
      Gives->>= _ (recovered-Repaired j e st s dag v)
        (λ s' (kept, more). Gives-ok (kept, omega (arith, more, kept.0.within)))
  settle-IsNext st failures index t failed s at v task parents f =
      Gives-if (leb j.max_attempts (failures + 1)) _ _ (λ e. Gives-err tt)
        (λ e. Gives-ok ((v, Later-refl s), ground arith))

  IsNext-Later :
      (st : Stage) (p failures : ℕ) (s s' : Scheduler) (n : Attempted) (s'' : Scheduler)
      → s.repairs ≤ s'.repairs
      → IsNext st p failures s' n s''
      → IsNext st p failures s n s''
  IsNext-Later st p failures s s' (finished res) s'' e h = h
  IsNext-Later st p failures s s' (again failures') s'' e h = omega (arith, h, e)

  attempt_task-IsNext :
      (st : Stage) (p failures : ℕ) (upstream : List Manifest) (s : Scheduler)
      → stage_by_id st.id j.stages ≡ some st
      → IsValid j s
      → HasParents j.stages s.accepted st
      → Gives
          (λ n. Kept j s n.1 × IsNext st p failures s n.0 n.1)
          (attempt_task w j st p failures upstream s)
  unfolding attempt_task make_task count_attempt
  attempt_task-IsNext st p failures upstream s at v parents =
      let s0 = count_attempt st p s in
      let asked = pick w j [] st p s0 in
      Gives-Option asked.1 _ _ (λ e. Gives-err tt)
        (λ index e. Gives->>= _ (check_canceled-Same w j (tick asked.0)) (λ s2 same.
          let t = make_task j st p upstream s in
          let from : Same s0 s2 = Same-trans (pick-Same w j [] st p s0) (record {
            accepted = same.accepted;
            attempts = same.attempts;
            repairs = same.repairs;
          }) in
          let later : Later s s2 = Later-trans (count_attempt-Later st p s) (Later-Same from) in
          let unrepaired : s2.repairs ≡ s.repairs = omega (arith, from.repairs) in
          let task = IsTask-Later j st t (Later-Same from) (make_task-IsTask j st p upstream s) in
          let valid = IsValid-Same j from (count_attempt-IsValid j st p s v) in
          Gives-imp
            (settle-IsNext st failures index t _ s2 at valid task
              (HasParents-Later j.stages st later unrepaired parents) (checked-Answers t st _))
            (λ n (kept, next). (
              Kept-trans j later kept,
              IsNext-Later st p failures s s2 n.0 n.1 later.repairs next,
            ))))

  -- The fuel that the loop takes from a state.
  abbrev fuel_for : Stage → ℕ → Scheduler → ℕ
  fuel_for st failures s = rounds j failures s + st.id * stage_fuel j

  abbrev LoopEnsures : ℕ → Type 0
  LoopEnsures fuel =
      (st : Stage) (p failures : ℕ) (s : Scheduler)
      → stage_by_id st.id j.stages ≡ some st
      → IsValid j s
      → fuel_for st failures s < fuel
      → Gives (IsEnsured j st p s) (retry_loop w j fuel st p failures s)

  -- What the loop gives to ensure_parents.
  abbrev ensure_with : ℕ → Ensure
  ensure_with fuel parent q s' = elim (lookup (parent.id, q) s'.accepted) [
    | some res ↦ ok (res, s')
    | none ↦ retry_loop w j fuel parent q 0 s'
  ]

  ensure_with-Ensures :
      (fuel : ℕ) (parent : Stage)
      → LoopEnsures fuel
      → stage_by_id parent.id j.stages ≡ some parent
      → (parent.id + 1) * stage_fuel j ≤ fuel
      → Ensures j (ensure_with fuel) parent
  ensure_with-Ensures fuel parent loop at enough q s v =
      Gives-Option (lookup (parent.id, q) s.accepted) _ _
        (λ e. loop parent q 0 s at v (omega (arith, enough)))
        (λ res e. Gives-ok ((v, Later-refl s), e))

  ensure_with-EnsuresAll :
      (fuel : ℕ) (st : Stage)
      → LoopEnsures fuel
      → stage_by_id st.id j.stages ≡ some st
      → st.id * stage_fuel j ≤ fuel
      → EnsuresAll j (ensure_with fuel) st.parents
  ensure_with-EnsuresAll fuel st loop at enough q in_parents =
      let (parent, found, same, (by_id, before, map)) =
        find-IsParent j.stages st dag at q in_parents in
      let above : parent.id + 1 ≤ st.id = omega (arith, before) in
      (
        parent,
        found,
        same,
        map,
        ensure_with-Ensures fuel parent loop by_id
            (omega (arith, enough, mul-le-mul_right (stage_fuel j) above)),
      )

  next_round :
      (fuel : ℕ) (st : Stage) (p failures : ℕ) (s : Scheduler) (n : Attempted) (s' : Scheduler)
      → LoopEnsures fuel
      → stage_by_id st.id j.stages ≡ some st
      → Kept j s s'
      → IsNext st p failures s n s'
      → fuel_for st failures s < suc fuel
      → Gives (IsEnsured j st p s) (elim n [
        | finished res ↦ ok (res, s')
        | again failures' ↦ retry_loop w j fuel st p failures' s'
      ])
  next_round fuel st p failures s (finished res) s' loop at kept got enough = Gives-ok (kept, got)
  next_round fuel st p failures s (again failures') s' loop at kept fewer enough =
      Gives-imp (loop st p failures' s' at kept.0 (omega (arith, fewer, enough)))
        (λ r (kept', got). (Kept-trans j kept.1 kept', got))

  -- The loop of ensureRetry ends, with the result of the partition if it is no failure.
  pub retry_loop-IsEnsured : (fuel : ℕ) → LoopEnsures fuel
  unfolding retry_loop
  retry_loop-IsEnsured zero st p failures s at v enough = absurd (omega (arith, enough))
  retry_loop-IsEnsured (suc fuel) st p failures s at v enough =
      let loop = retry_loop-IsEnsured fuel in
      Gives->>= _ (check_canceled-Same w j s) (λ s0 same.
        Gives->>= _
          (ensure_parents-Kept j (ensure_with fuel) st.parents s0
            (ensure_with-EnsuresAll fuel st loop at (omega (arith, enough)))
            (IsValid-Same j same v))
          (λ r (kept, all).
            let later : Later s r.1 = Later-trans (Later-Same same) kept.1 in
            elim (Bool-cases (r.1.repairs == s0.repairs)) [
              | inr changed ↦
                  let more : s0.repairs < r.1.repairs = ground (arith, changed, kept.1.repairs) in
                  rw changed (
                    Gives-imp
                      (loop st p failures r.1 at kept.0
                        (omega (arith, enough, more, same.repairs, kept.0.within)))
                      (λ a (kept', got). (Kept-trans j later kept', got)))
              | inl unchanged ↦ rw unchanged (
                  Gives->>= _
                    (attempt_task-IsNext st p failures r.0 r.1 at kept.0
                      (all (ground (arith, unchanged))))
                    (λ n (kept', next).
                      next_round fuel st p failures s n.0 n.1 loop at (Kept-trans j later kept')
                        (IsNext-Later st p failures s r.1 n.0 n.1 later.repairs next) enough))
            ]))

  -- If the stages of a plan are numbered by their places and wait for earlier map stages,
  -- ensureRetry of a stage of the plan, from a well-formed state and with fuel for the stages up to
  -- its own, ends: it fails, or leaves a well-formed state in which the result that it returns is
  -- the accepted one of its partition.
  pub ensure_retry-IsEnsured :
      (fuel : ℕ) (st : Stage) (p failures : ℕ) (s : Scheduler)
      → stage_by_id st.id j.stages ≡ some st
      → IsValid j s
      → (st.id + 1) * stage_fuel j ≤ fuel
      → Gives (IsEnsured j st p s) (ensure_retry w j fuel st p failures s)
  unfolding ensure_retry
  ensure_retry-IsEnsured fuel st p failures s at v enough =
      Gives-Option (lookup (st.id, p) s.accepted) _ _
        (λ e. retry_loop-IsEnsured fuel st p failures s at v (omega (arith, enough)))
        (λ res e. Gives-ok ((v, Later-refl s), e))
