-- ===== src/Scheduler/Valid/Running.antt =====
-- scheduler.go: runStage against the state; each wave takes a partition, so that a wave for each
-- partition is enough.
use go_spark.Prelude.{
  ℕ, zero, suc, ◌+◌, ◌-◌, ◌*◌, ◌<◌, ◌≤◌, ◌≡◌, refl, sym, subst, inl, inr, true, some, List, [], ◌∷◌,
  arith, ◌==◌, leb, if◌then◌else◌, length, All, dec_lt, All-imp,
}
use go_spark.Prelude.Maps.{nat_eq, pair_eq}
use go_spark.Prelude.Results.{ok, err, ◌>>=◌}
use go_spark.Planner.{Stage}
use go_spark.Planner.Ordered.{stage_by_id}
use go_spark.Scheduler.{Task, Job, Scheduler}
use go_spark.Scheduler.Recovery.{Accepted}
use go_spark.Scheduler.Recovery.Ready.{has}
use go_spark.Scheduler.Recovery.Repairs.{IsDag}
use go_spark.Scheduler.Recovery.Dropped.{All-contains}
use go_spark.Scheduler.Tasks.{World, no_workers, check_canceled}
use go_spark.Scheduler.Waves.{
  Wave, Progress, go_on, stop, run_tasks, complete_all, wave_loop, run_stage,
}
use go_spark.Scheduler.Gives.{Gives, Gives-ok, Gives-err, Gives->>=, Gives-if, Gives-imp}
use go_spark.Scheduler.Valid.{
  IsValid, Later, Kept, Same, Later-refl, Later-trans, Kept-trans, IsValid-Same, Later-Same,
  IsTask-Later,
}
use go_spark.Scheduler.Valid.Asking.{check_canceled-Same}
use go_spark.Scheduler.Valid.Accepting.{HasParents, HasParents-Later}
use go_spark.Scheduler.Valid.Retrying.{stage_fuel}
use go_spark.Scheduler.Valid.Gathering.{IsWave, partitions_of, gather-IsWave}
use go_spark.Scheduler.Valid.Completing.{IsProgress, complete_all-CompletesAll}

-- The partitions of a stage before `p` are accepted.
abbrev pub HasBefore : Stage → ℕ → Accepted → Type 0
HasBefore st p m = (q : ℕ) → q < p → has (st.id, q) m ≡ true

-- What a call leaves that runs a stage: all its partitions are accepted, unless there was a repair.
abbrev pub IsRun : Job → Stage → Scheduler → Scheduler → Type 0
IsRun j st s s' =
    Kept j s s' × (s'.repairs ≡ s.repairs → HasBefore st st.num_partitions s'.accepted)

IsRun-trans :
    (j : Job) (st : Stage) {a b c : Scheduler}
    → Later a b
    → b.repairs ≡ a.repairs
    → IsRun j st b c
    → IsRun j st a c
IsRun-trans j st later same (kept, all) =
    (Kept-trans j later kept, λ e. all (omega (arith, e, same)))

module _ (w : World) (j : Job) (dag : IsDag j.stages) (fuel : ℕ) (st : Stage)
    (at : stage_by_id st.id j.stages ≡ some st) (enough : (st.id + 1) * stage_fuel j ≤ fuel) where
  -- What is asked of the loop with `c` waves left.
  abbrev LoopRuns : ℕ → Type 0
  LoopRuns c =
      (p : ℕ) (s : Scheduler)
      → IsValid j s
      → HasParents j.stages s.accepted st
      → HasBefore st p s.accepted
      → p ≤ st.num_partitions
      → st.num_partitions ≤ p + c
      → Gives (IsRun j st s) (wave_loop w j fuel c st p s)

  HasBefore-IsWave :
      (p c : ℕ) (s : Scheduler) (g : Wave × Scheduler) (s' : Scheduler)
      → IsWave j st s p c g
      → HasBefore st p s.accepted
      → Later g.1 s'
      → s'.repairs ≡ g.1.repairs
      → All (λ q. has (st.id, q) s'.accepted ≡ true) (partitions_of g.0.tasks)
      → HasBefore st g.0.next s'.accepted
  HasBefore-IsWave p c s g s' wave before later same all q lt =
      let kept : has (st.id, q) s.accepted ≡ true → has (st.id, q) s'.accepted ≡ true = λ h.
        later.stays same (st.id, q) (subst (λ m. has (st.id, q) m ≡ true) (sym wave.accepted) h) in
      elim (dec_lt q p) [
        | yes early ↦ kept (before q early)
        | no late ↦ elim (wave.covered q (omega (arith, late)) lt) [
          | inl h ↦ kept h
          | inr h ↦
              All-contains (λ k. has (st.id, k) s'.accepted ≡ true) (partitions_of g.0.tasks) q all
                h
        ]
      ]

  after_completions :
      (c p : ℕ) (s0 : Scheduler) (t : Task × ℕ) (ts : List (Task × ℕ)) (next : ℕ) (g1 : Scheduler)
      (n : Progress) (s' : Scheduler)
      → LoopRuns c
      → IsWave j st s0 p (st.num_partitions - p) (record { tasks = t ∷ ts; next = next }, g1)
      → HasParents j.stages s0.accepted st
      → HasBefore st p s0.accepted
      → p < st.num_partitions
      → st.num_partitions ≤ p + suc c
      → Kept j g1 s'
      → IsProgress w j dag fuel st at enough s0.repairs (partitions_of (t ∷ ts)) n s'
      → Gives (IsRun j st s0) (elim n [ stop ↦ ok s' | go_on ↦ wave_loop w j fuel c st next s' ])
  after_completions c p s0 t ts next g1 stop s' loop wave parents before lt enough_waves kept more =
      Gives-ok (Kept-trans j wave.later kept, λ e. absurd (omega (arith, e, more)))
  after_completions c p s0 t ts next g1 go_on s' loop wave parents before lt enough_waves kept
        (same, all) =
      let later : Later s0 s' = Later-trans wave.later kept.1 in
      let moved : p < next = elim wave.progress [ inl e ↦ cc | inr h ↦ h ] in
      Gives-imp
        (loop next s' kept.0 (HasParents-Later j.stages st later same parents)
          (HasBefore-IsWave p _ s0 _ s' wave before kept.1 (omega (arith, same, wave.repairs)) all)
          (omega (arith, wave.to, lt)) (omega (arith, moved, enough_waves)))
        (λ s'' run. IsRun-trans j st later same run)

  -- What follows a wave.
  after_gather :
      (c p : ℕ) (s0 : Scheduler) (tasks : List (Task × ℕ)) (next : ℕ) (g1 : Scheduler)
      → LoopRuns c
      → IsWave j st s0 p (st.num_partitions - p) (record { tasks = tasks; next = next }, g1)
      → HasParents j.stages s0.accepted st
      → HasBefore st p s0.accepted
      → p < st.num_partitions
      → st.num_partitions ≤ p + suc c
      → Gives (IsRun j st s0) (elim tasks [
        | [] ↦ if next == st.num_partitions then ok g1 else err no_workers
        | ◌∷◌ t ts ↦ check_canceled w j (record g1 { clock = g1.clock + length (t ∷ ts) }) >>= λ s1.
            complete_all w j fuel s0.repairs st (run_tasks w j g1.clock (t ∷ ts)) s1 >>= λ r.
            elim r.0 [ stop ↦ ok r.1 | go_on ↦ wave_loop w j fuel c st next r.1 ]
      ])
  after_gather c p s0 [] next g1 loop wave parents before lt enough_waves =
      Gives-if (next == st.num_partitions) _ _
        (λ end.
          let is_end : next ≡ st.num_partitions = ground (arith, end) in
          Gives-ok (
            (wave.valid, wave.later),
            λ e.
                subst (λ n. HasBefore st n g1.accepted) is_end
                  (HasBefore-IsWave p _ s0 _ g1 wave before (Later-refl g1) refl tt),
          ))
        (λ stuck. Gives-err tt)
  after_gather c p s0 (t ∷ ts) next g1 loop wave parents before lt enough_waves =
      Gives->>= _ (check_canceled-Same w j _) (λ s1 asked.
        let same : Same g1 s1 = record {
          accepted = asked.accepted;
          attempts = asked.attempts;
          repairs = asked.repairs;
        } in
        let later : Later s0 s1 = Later-trans wave.later (Later-Same same) in
        let unrepaired : s1.repairs ≡ s0.repairs = omega (arith, same.repairs, wave.repairs) in
        Gives->>= _
          (complete_all-CompletesAll w j dag fuel st at enough s0.repairs g1.clock (t ∷ ts) s1
            unrepaired (IsValid-Same j same wave.valid)
            (All-imp _ _ (t ∷ ts) (λ x h. IsTask-Later j st x.0 (Later-Same same) h) wave.tasks)
            (HasParents-Later j.stages st later unrepaired parents))
          (λ r (kept, progress).
            after_completions c p s0 t ts next g1 r.0 r.1 loop wave parents before lt enough_waves
              (Kept-trans j (Later-Same same) kept) progress))

  wave_loop-IsRun : (c : ℕ) → LoopRuns c
  unfolding wave_loop
  wave_loop-IsRun zero p s v parents before le enough_waves =
      Gives-if (leb st.num_partitions p) _ _
        (λ e. Gives-ok ((v, Later-refl s), λ same q lt. before q (omega (arith, lt, enough_waves))))
        (λ e. absurd (ground (arith, e, enough_waves)))
  wave_loop-IsRun (suc c) p s v parents before le enough_waves =
      Gives-if (leb st.num_partitions p) _ _
        (λ e. Gives-ok ((v, Later-refl s), λ same q lt. before q (ground (arith, lt, e))))
        (λ e. Gives->>= _ (check_canceled-Same w j s) (λ s0 same.
          let parents' : HasParents j.stages s0.accepted st =
            HasParents-Later j.stages st (Later-Same same) same.repairs parents in
          Gives->>= _
            (gather-IsWave w j dag st at (st.num_partitions - p) p [] s0 (IsValid-Same j same v)
              parents')
            (λ g wave.
              Gives-imp
                (after_gather c p s0 g.0.tasks g.0.next g.1 (wave_loop-IsRun c) wave parents'
                  (subst (HasBefore st p) (sym same.accepted) before) (ground (arith, e))
                  enough_waves)
                (λ s' run. IsRun-trans j st (Later-Same same) same.repairs run))))

  -- If the stages of a plan are numbered by their places and wait for earlier map stages, runStage
  -- of a stage of the plan, with fuel for the stages up to it, from a well-formed state in which the
  -- parents of its stage are accepted, ends with a failure or in a well-formed state: each accepted
  -- result answers a counted task, its parents are accepted, too, and the repairs are within their
  -- limit; if it repairs nothing, all partitions of its stage are accepted.
  pub run_stage-IsRun :
      (s : Scheduler)
      → IsValid j s
      → HasParents j.stages s.accepted st
      → Gives (IsRun j st s) (run_stage w j fuel st s)
  unfolding run_stage
  run_stage-IsRun s v parents =
      wave_loop-IsRun st.num_partitions 0 s v parents (λ q lt. absurd (omega (arith, lt)))
        (omega arith) (omega arith)
