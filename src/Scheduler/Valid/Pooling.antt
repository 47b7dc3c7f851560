-- ===== src/Scheduler/Valid/Pooling.antt =====
-- scheduler.go: the waves of sampleStage and the choice of the bounds, against the state.
use go_spark.Prelude.{
  subst, ℕ, zero, suc, ◌+◌, ◌-◌, ◌<◌, ◌≤◌, ◌≡◌, true, refl, inl, inr, Option, none, some, List, [],
  ◌∷◌, arith, leb, length,
}
use go_spark.Prelude.Maps.{nat_eq, lookup, lookup-assign, assign}
use go_spark.Prelude.Results.{ok, err, ◌>>=◌}
use go_spark.Order.{WeakOrder}
use go_spark.RangeSort.Sampling.{select_range_bounds_lem}
use go_spark.RangeSort.{append_sort_samples}
use go_spark.Planner.{Stage}
use go_spark.Planner.Ordered.{stage_by_id}
use go_spark.Scheduler.{ExecResult, Task, Job, Scheduler, remember_worker_cache}
use go_spark.Scheduler.Recovery.Repairs.{IsDag}
use go_spark.Scheduler.Tasks.{World, no_workers, check_canceled, Run}
use go_spark.Scheduler.Waves.{Completion, run_tasks}
use go_spark.Scheduler.Samples.{
  Pool, Sampled, sampled_by, repaired, sample_all, sample_loop, set_bounds, sample_stage,
}
use go_spark.Scheduler.Gives.{
  Gives, Gives-ok, Gives-err, Gives->>=, Gives-if, Gives-Option, Gives-imp,
}
use go_spark.Scheduler.Valid.{IsValid, Kept, Same, Same-trans, Kept-trans, Kept-Same, Later-Same}
use go_spark.Scheduler.Valid.Asking.{check_canceled-Same}
use go_spark.Scheduler.Valid.Accepting.{HasParents}
use go_spark.Scheduler.Valid.Marking.{AddsSamples, AddsSamples-trans, IsMarked, IsSampledStage}
use go_spark.Scheduler.Valid.Sampling.{
  IsSampleWave, AreTasks, IsSampleOf, Ready, Ready-Same, IsSample, gather_samples-IsSampleWave,
  sample_completed-Samples,
}

-- The completions of the tasks of the partitions from `p` on.
abbrev AreCompleted : ℕ → List Completion → Type 0
AreCompleted p [] = Unit
AreCompleted p (c ∷ cs) = (c.task.partition_id ≡ p) × AreCompleted (p + 1) cs

run_tasks-AreCompleted :
    (w : World) (j : Job) (clock p : ℕ) (tasks : List (Task × ℕ))
    → AreTasks p tasks
    → AreCompleted p (run_tasks w j clock tasks)
      × (length (run_tasks w j clock tasks) ≡ length tasks)
unfolding run_tasks
run_tasks-AreCompleted w j clock p [] h = (tt, refl)
run_tasks-AreCompleted w j clock p ((t, index) ∷ tasks) h =
    let (are, count) = run_tasks-AreCompleted w j (clock + 1) (p + 1) tasks h.1 in
    ((h.0, are), omega (arith, count))

module _ (w : World) (j : Job) (dag : IsDag j.stages) (st : Stage)
    (at : stage_by_id st.id j.stages ≡ some st) where
  -- All partitions are sampled and nothing changes that the tasks depend on, or there was a repair.
  abbrev IsPool : ℕ → ℕ → Pool → Scheduler → Option Pool → Scheduler → Type 0
  IsPool c p from s (some pool) s' = Same s s' × AddsSamples c p from pool
  IsPool c p from s none s' = Kept j s s' × (s.repairs < s'.repairs)

  IsPool-Same :
      (n p : ℕ) (from : Pool) (a b : Scheduler) (o : Option Pool) (c : Scheduler)
      → Same a b
      → IsPool n p from b o c
      → IsPool n p from a o c
  IsPool-Same n p from a b (some pool) c same h = (Same-trans same h.0, h.1)
  IsPool-Same n p from a b none c same h =
      (Kept-trans j (Later-Same same) h.0, omega (arith, same.repairs, h.1))

  abbrev Pools : ℕ → ℕ → Pool → Scheduler → Option Pool × Scheduler → Type 0
  Pools c p from s r = IsPool c p from s r.0 r.1

  -- After the samples of `c` partitions, those of the partitions that follow.
  IsPool-after :
      (t c d p q : ℕ) (from pool : Pool) (a b : Scheduler) (o : Option Pool) (s : Scheduler)
      → t ≡ c + d
      → q ≡ p + c
      → IsPool c p from a (some pool) b
      → IsPool d q pool b o s
      → IsPool t p from a o s
  IsPool-after t c d p q from pool a b (some pool') s total at h k =
      (Same-trans h.0 k.0, AddsSamples-trans t c d p q from pool pool' total at h.1 k.1)
  IsPool-after t c d p q from pool a b none s total at h k = IsPool-Same t p from a b none s h.0 k

  after_sample :
      (c p : ℕ) (from : Pool) (s s' : Scheduler) (r : Sampled)
      (more : ExecResult → ℕ → Run (Option Pool × Scheduler))
      → IsSample w j dag st at p s r s'
      → ((res : ExecResult) (index : ℕ)
          → Same s s'
          → IsSampleOf p res
          → Gives (Pools c p from s) (more res index))
      → Gives
          (Pools c p from s)
          (elim r [ repaired ↦ ok (none, s') | sampled_by res index ↦ more res index ])
  after_sample c p from s s' (sampled_by res index) more h f = f res index h.0 h.1
  after_sample c p from s s' repaired more h f = Gives-ok h

  sample_all-Pools :
      (cs : List Completion) (p : ℕ) (pool : Pool) (s : Scheduler)
      → AreCompleted p cs
      → Ready w j dag st at s
      → Gives (Pools (length cs) p pool s) (sample_all w j st cs pool s)
  unfolding sample_all
  sample_all-Pools [] p pool s are v =
      Gives-ok (record { accepted = refl; attempts = refl; repairs = refl }, refl)
  sample_all-Pools (c ∷ cs) p pool s are v =
      Gives->>= _ (sample_completed-Samples w j dag st at c s v) (λ r h.
        after_sample (length (c ∷ cs)) p pool s r.1 r.0 _
          (subst (λ n. IsSample w j dag st at n s r.0 r.1) are.0 h)
          (λ res index same is.
            let noted : Scheduler = record r.1 {
              cache_locations =
                  remember_worker_cache index res.cached res.dropped r.1.cache_locations;
            } in
            let from : Same s noted = record {
              accepted = same.accepted;
              attempts = same.attempts;
              repairs = same.repairs;
            } in
            let pool' : Pool = append_sort_samples pool.0 res.samples pool.1 in
            Gives-imp
              (sample_all-Pools cs (p + 1) pool' noted are.1
                (Ready-Same w j dag st at s noted from v))
              (λ r' h'.
                IsPool-after (length (c ∷ cs)) 1 (length cs) p (p + 1) pool pool' s noted r'.0 r'.1
                  (omega arith) refl (from, (res, is, refl)) h')))

  -- What is asked of the loop with `c` waves left.
  abbrev LoopPools : ℕ → Type 0
  LoopPools c =
      (p : ℕ) (pool : Pool) (s : Scheduler)
      → Ready w j dag st at s
      → p ≤ st.num_partitions
      → st.num_partitions ≤ p + c
      → Gives (Pools (st.num_partitions - p) p pool s) (sample_loop w j c st p pool s)

  after_pool :
      (c k p next : ℕ) (from : Pool) (s s' : Scheduler) (o : Option Pool)
      → LoopPools c
      → Ready w j dag st at s
      → next ≡ p + k
      → next ≤ st.num_partitions
      → st.num_partitions ≤ next + c
      → IsPool k p from s o s'
      → Gives
          (Pools (st.num_partitions - p) p from s)
          (elim o [ none ↦ ok (none, s') | some pool ↦ sample_loop w j c st next pool s' ])
  after_pool c k p next from s s' none loop v to within enough h = Gives-ok h
  after_pool c k p next from s s' (some pool) loop v to within enough h =
      Gives-imp (loop next pool s' (Ready-Same w j dag st at s s' h.0 v) within enough) (λ r h'.
        IsPool-after (st.num_partitions - p) k (st.num_partitions - next) p next from pool s s' r.0
          r.1 (omega (arith, to, within)) to h h')

  after_wave :
      (c p : ℕ) (pool : Pool) (s0 : Scheduler) (tasks : List (Task × ℕ)) (next : ℕ) (g1 : Scheduler)
      → LoopPools c
      → IsSampleWave s0 p (st.num_partitions - p) (record { tasks = tasks; next = next }, g1)
      → Ready w j dag st at s0
      → p ≤ st.num_partitions
      → st.num_partitions ≤ p + suc c
      → Gives (Pools (st.num_partitions - p) p pool s0) (elim tasks [
        | [] ↦ err no_workers
        | ◌∷◌ t ts ↦ check_canceled w j (record g1 { clock = g1.clock + length (t ∷ ts) }) >>= λ s1.
            sample_all w j st (run_tasks w j g1.clock (t ∷ ts)) pool s1 >>= λ r. elim r.0 [
              | none ↦ ok (none, r.1)
              | some pool' ↦ sample_loop w j c st next pool' r.1
            ]
      ])
  after_wave c p pool s0 [] next g1 loop wave v within enough = Gives-err tt
  after_wave c p pool s0 (t ∷ ts) next g1 loop wave v within enough =
      let moved : p < next = elim wave.progress [ inl e ↦ cc | inr h ↦ h ] in
      let completions = run_tasks w j g1.clock (t ∷ ts) in
      let (are, count) = run_tasks-AreCompleted w j g1.clock p (t ∷ ts) wave.tasks in
      Gives->>= _ (check_canceled-Same w j _) (λ s1 asked.
        let same : Same s0 s1 = Same-trans wave.same (record {
          accepted = asked.accepted;
          attempts = asked.attempts;
          repairs = asked.repairs;
        }) in
        let v1 = Ready-Same w j dag st at s0 s1 same v in
        Gives->>= _ (sample_all-Pools completions p pool s1 are v1) (λ r h.
          Gives-imp
            (after_pool c (length completions) p next pool s1 r.1 r.0 loop v1
              (omega (arith, wave.next, count)) (omega (arith, wave.to, within))
              (omega (arith, enough, moved)) h)
            (λ r' h'. IsPool-Same (st.num_partitions - p) p pool s0 s1 r'.0 r'.1 same h')))

  all_sampled :
      (p : ℕ) (pool : Pool)
      → leb st.num_partitions p ≡ true
      → AddsSamples (st.num_partitions - p) p pool pool
  all_sampled p pool past =
      let none_left : 0 ≡ st.num_partitions - p = ground (arith, past) in
      subst (λ c. AddsSamples c p pool pool) none_left refl

  sample_loop-Pools : (c : ℕ) → LoopPools c
  unfolding sample_loop
  sample_loop-Pools zero p pool s v within enough =
      Gives-if (leb st.num_partitions p) _ _
        (λ e.
          Gives-ok
            (record { accepted = refl; attempts = refl; repairs = refl }, all_sampled p pool e))
        (λ e. absurd (ground (arith, e, enough)))
  sample_loop-Pools (suc c) p pool s v within enough =
      Gives-if (leb st.num_partitions p) _ _
        (λ e.
          Gives-ok
            (record { accepted = refl; attempts = refl; repairs = refl }, all_sampled p pool e))
        (λ e. Gives->>= _ (check_canceled-Same w j s) (λ s0 same.
          let v0 = Ready-Same w j dag st at s s0 same v in
          Gives->>= _ (gather_samples-IsSampleWave w j dag st at (st.num_partitions - p) p [] s0 v0)
            (λ g wave.
              Gives-imp
                (after_wave c p pool s0 g.0.tasks g.0.next g.1 (sample_loop-Pools c) wave v0 within
                  enough)
                (λ r h. IsPool-Same (st.num_partitions - p) p pool s s0 r.0 r.1 same h))))

  assigned : (blob : ℕ) (m : List (ℕ × ℕ)) → lookup st.id (assign st.id blob m) ≡ some blob
  assigned blob m = ground (arith, lookup-assign st.id st.id blob m)

  set_bounds-IsMarked :
      (pool : Pool) (s : Scheduler)
      → AddsSamples st.num_partitions 0 ([], 0) pool
      → WeakOrder (j.sort_less st.id)
      → Gives (λ s'. Same s s' × IsMarked w j st s') (set_bounds w j st pool s)
  unfolding set_bounds
  set_bounds-IsMarked pool s adds order =
      let (bounds, chosen, are) =
        select_range_bounds_lem (j.sort_less st.id) order pool.0 st.num_reducers in
      rw (chosen, set_bounds)
        (Gives-Option (w.encode bounds) _ _ (λ e. Gives-err tt)
          (λ blob e. Gives-ok (
            record { accepted = refl; attempts = refl; repairs = refl },
            (ground arith, (pool, adds, (bounds, (blob, chosen, e, assigned blob s.bounds)))),
          )))

  pub sample_stage-IsSampled :
      (s : Scheduler)
      → WeakOrder (j.sort_less st.id)
      → IsValid j s
      → HasParents j.stages s.accepted st
      → Gives (λ s'. Kept j s s' × IsSampledStage w j st s s') (sample_stage w j st s)
  unfolding sample_stage
  sample_stage-IsSampled s order v parents =
      Gives->>= _
        (sample_loop-Pools st.num_partitions 0 ([], 0) s (v, parents) (omega arith) (omega arith))
        (λ r h. after r.0 r.1 h)
    where
      after :
          (o : Option Pool) (s' : Scheduler)
          → IsPool (st.num_partitions - 0) 0 ([], 0) s o s'
          → Gives
              (λ s''. Kept j s s'' × IsSampledStage w j st s s'')
              (elim o [ none ↦ ok s' | some pool ↦ set_bounds w j st pool s' ])
      after none s' (kept, more) = Gives-ok (kept, inl more)
      after (some pool) s' h =
          Gives-imp
            (set_bounds-IsMarked pool s'
              (subst (λ c. AddsSamples c 0 ([], 0) pool) (omega arith) h.1) order)
            (λ s'' (same, marked).
              (Kept-Same j v (Same-trans h.0 same), inr (Same-trans h.0 same, marked)))
