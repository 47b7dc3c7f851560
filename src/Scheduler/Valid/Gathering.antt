-- ===== src/Scheduler/Valid/Gathering.antt =====
-- scheduler.go: the loop of runStage that fills a wave, against the state.
use go_spark.Prelude.{
  ℕ, zero, suc, ◌+◌, ◌<◌, ◌≤◌, ◌≡◌, ◌⊎◌, refl, sym, subst, inl, inr, true, some, List, [], ◌∷◌, map,
  arith, leb, length, All, dec_lt,
}
use go_spark.Prelude.Maps.{lookup, contains, nat_eq, pair_eq}
use go_spark.Planner.{Stage, shuffle_map}
use go_spark.Planner.Ordered.{stage_by_id}
use go_spark.Scheduler.{Manifest, Task, Job, Scheduler}
use go_spark.Scheduler.Recovery.{find_stage}
use go_spark.Scheduler.Recovery.Ready.{has}
use go_spark.Scheduler.Recovery.Repairs.{IsDag}
use go_spark.Scheduler.Tasks.{World, make_task, count_attempt, pick, stage_manifests, upstream_of}
use go_spark.Scheduler.Waves.{Wave, add_task, gather}
use go_spark.Scheduler.Gives.{Gives, Gives-ok, Gives->>=, Gives-if, Gives-Option, Gives-imp}
use go_spark.Scheduler.Valid.{
  IsTask, IsValid, Later, Same, Later-trans, IsValid-Same, Later-Same, IsTask-Later,
}
use go_spark.Scheduler.Valid.Asking.{
  pick-Same, count_attempt-Later, count_attempt-IsValid, make_task-IsTask,
}
use go_spark.Scheduler.Valid.Accepting.{HasParents}
use go_spark.Scheduler.Valid.Parents.{manifest_of-IsAnswer, has-lookup, find-IsParent}

module _ (j : Job) (s : Scheduler) (v : IsValid j s) where
  stage_manifests-Gives :
      (parent : Stage)
      → stage_by_id parent.id j.stages ≡ some parent
      → parent.kind ≡ shuffle_map
      → (c p : ℕ) → ((q : ℕ) → q < p + c → has (parent.id, q) s.accepted ≡ true)
      → Gives (λ ms. Unit {0}) (stage_manifests s.accepted parent.id c p)
  unfolding stage_manifests
  stage_manifests-Gives parent at map zero p h = Gives-ok tt
  stage_manifests-Gives parent at map (suc c) p h =
      let (res, got) = has-lookup (parent.id, p) s.accepted (h p (omega arith)) in
      rw got (
        Gives->>= _ (manifest_of-IsAnswer j parent s p res map (v.answers parent p res at got))
          (λ m u.
            Gives->>= _
              (stage_manifests-Gives parent at map c (p + 1) (λ q lt. h q (omega (arith, lt))))
              (λ ms u'. Gives-ok tt)))

  -- The parents in a list are map stages of the plan whose partitions are accepted.
  abbrev AllMapped : List ℕ → Type 0
  AllMapped ids =
      (q : ℕ)
      → contains q ids ≡ true
      → (parent : Stage) × (stage_by_id q j.stages ≡ some parent)
        × (parent.id ≡ q)
        × (parent.kind ≡ shuffle_map)
        × ((r : ℕ) → r < parent.num_partitions → has (q, r) s.accepted ≡ true)

  upstream_of-AllMapped :
      (ids : List ℕ) → AllMapped ids → Gives (λ ms. Unit {0}) (upstream_of j.stages s.accepted ids)
  unfolding upstream_of find_stage
  upstream_of-AllMapped [] a = Gives-ok tt
  upstream_of-AllMapped (id ∷ ids) a =
      let (parent, at, same, map, all) = a id (ground arith) in
      let at_id : stage_by_id parent.id j.stages ≡ some parent =
        subst (λ n. stage_by_id n j.stages ≡ some parent) (sym same) at in
      let first = stage_manifests-Gives parent at_id map parent.num_partitions 0 (λ q lt.
        subst (λ n. has (n, q) s.accepted ≡ true) (sym same) (all q (omega (arith, lt)))) in
      let found : find_stage j.stages id ≡ parent = rw (at, find_stage) refl in
      rw (found, upstream_of)
        (Gives->>= _
          (subst
            (λ n. Gives (λ ms. Unit {0}) (stage_manifests s.accepted n parent.num_partitions 0))
            same first)
          (λ ms u.
            Gives->>= _ (upstream_of-AllMapped ids (λ q h. a q (ground (arith, h))))
              (λ rest u'. Gives-ok tt)))

  -- The manifests of the parents are there.
  pub upstream_of-HasParents :
      (st : Stage)
      → IsDag j.stages
      → stage_by_id st.id j.stages ≡ some st
      → HasParents j.stages s.accepted st
      → Gives (λ ms. Unit {0}) (upstream_of j.stages s.accepted st.parents)
  upstream_of-HasParents st dag at parents = upstream_of-AllMapped st.parents (λ q in_parents.
      let (parent, found, same, (by_id, before, map)) =
        find-IsParent j.stages st dag at q in_parents in
      (parent, found, same, map, λ r lt. parents q r parent in_parents found lt))

-- The partitions of the tasks.
abbrev pub partitions_of : List (Task × ℕ) → List ℕ
partitions_of tasks = map (λ x. x.0.partition_id) tasks

-- A wave from the partition `p` on, `c` of them at most: each partition before its next one is accepted
-- or has a task.
pub record IsWave (j : Job) (st : Stage) (s : Scheduler) (p c : ℕ) (r : Wave × Scheduler)
    : Type 0 where
  pub valid : IsValid j r.1
  pub later : Later s r.1
  pub accepted : r.1.accepted ≡ s.accepted
  pub repairs : r.1.repairs ≡ s.repairs
  pub tasks : All (λ (x : Task × ℕ). IsTask j st r.1 x.0) r.0.tasks
  pub covered :
      (q : ℕ)
      → p ≤ q
      → q < r.0.next
      → (has (st.id, q) s.accepted ≡ true) ⊎ (contains q (partitions_of r.0.tasks) ≡ true)
  pub from : p ≤ r.0.next
  pub to : r.0.next ≤ p + c
  pub progress : (r.0.tasks ≡ []) ⊎ (p < r.0.next)

module _ (w : World) (j : Job) (dag : IsDag j.stages) (st : Stage)
    (at : stage_by_id st.id j.stages ≡ some st) where
  empty-IsWave :
      (c p : ℕ) (s s' : Scheduler)
      → IsValid j s
      → Same s s'
      → IsWave j st s p c (record { tasks = []; next = p }, s')
  empty-IsWave c p s s' v same = record {
    valid = IsValid-Same j same v;
    later = Later-Same same;
    accepted = same.accepted;
    repairs = same.repairs;
    tasks = tt;
    covered = λ q le lt. absurd (omega (arith, le, lt));
    from = omega arith;
    to = omega arith;
    progress = inl refl;
  }

  skip-IsWave :
      (c p : ℕ) (s : Scheduler) (r : Wave × Scheduler)
      → has (st.id, p) s.accepted ≡ true
      → IsWave j st s (p + 1) c r
      → IsWave j st s p (suc c) r
  skip-IsWave c p s r h g = record {
    valid = g.valid;
    later = g.later;
    accepted = g.accepted;
    repairs = g.repairs;
    tasks = g.tasks;
    covered = λ q le lt. elim (dec_lt p q) [
      | yes more ↦ g.covered q (omega (arith, more)) lt
      | no here ↦
          let same : p ≡ q = omega (arith, le, here) in
          inl (subst (λ n. has (st.id, n) s.accepted ≡ true) same h)
    ];
    from = omega (arith, g.from);
    to = omega (arith, g.to);
    progress = inr (omega (arith, g.from));
  }

  add_task-IsWave :
      (c p index : ℕ) (upstream : List Manifest) (s s1 : Scheduler) (r : Wave × Scheduler)
      → Same s s1
      → IsWave j st (count_attempt st p s1) (p + 1) c r
      → IsWave j st s p (suc c) (add_task (make_task j st p upstream s1) index r)
  unfolding add_task make_task count_attempt
  add_task-IsWave c p index upstream s s1 r same g =
      let t = make_task j st p upstream s1 in
      let task : IsTask j st r.1 t =
        IsTask-Later j st t g.later (make_task-IsTask j st p upstream s1) in
      record {
        valid = g.valid;
        later = Later-trans (Later-trans (Later-Same same) (count_attempt-Later st p s1)) g.later;
        accepted = rw (g.accepted, same.accepted);
        repairs = omega (arith, g.repairs, same.repairs);
        tasks = (task, g.tasks);
        covered = λ q le lt. elim (dec_lt p q) [
          | yes more ↦ elim (g.covered q (omega (arith, more)) lt) [
            | inl h ↦ inl (subst (λ m. has (st.id, q) m ≡ true) same.accepted h)
            | inr h ↦ inr (ground (arith, h))
          ]
          | no here ↦ inr (ground (arith, le, here))
        ];
        from = omega (arith, g.from);
        to = omega (arith, g.to);
        progress = inr (omega (arith, g.from));
      }

  abbrev Waves : ℕ → ℕ → List ℕ → Scheduler → Type 0
  Waves c p used s = Gives (IsWave j st s p c) (gather w j st c p used s)

  -- The loop gives a wave.
  pub gather-IsWave :
      (c p : ℕ) (used : List ℕ) (s : Scheduler)
      → IsValid j s
      → HasParents j.stages s.accepted st
      → Gives (IsWave j st s p c) (gather w j st c p used s)
  unfolding gather
  gather-IsWave zero p used s v parents =
      Gives-ok
        (empty-IsWave 0 p s s v (record { accepted = refl; attempts = refl; repairs = refl }))
  gather-IsWave (suc c) p used s v parents =
      Gives-if (leb j.num_runners (length used)) _ _
        (λ full. Gives-ok (
          empty-IsWave (suc c) p s s v
            (record { accepted = refl; attempts = refl; repairs = refl })))
        (λ more.
          Gives-Option (lookup (st.id, p) s.accepted) _ _
            (λ missing.
              let asked = pick w j used st p s in
              let same : Same s asked.0 = pick-Same w j used st p s in
              let valid = IsValid-Same j same v in
              let parents' : HasParents j.stages asked.0.accepted st =
                subst (λ m. HasParents j.stages m st) (sym same.accepted) parents in
              Gives-Option asked.1 _ _ (λ e. Gives-ok (empty-IsWave (suc c) p s asked.0 v same))
                (λ index e.
                  Gives->>= _ (upstream_of-HasParents j asked.0 valid st dag at parents')
                    (λ upstream u.
                      Gives->>= _
                        (gather-IsWave c (p + 1) (index ∷ used) (count_attempt st p asked.0)
                          (count_attempt-IsValid j st p asked.0 valid) parents')
                        (λ r g. Gives-ok (add_task-IsWave c p index upstream s asked.0 r same g)))))
            (λ res got.
              Gives-imp (gather-IsWave c (p + 1) used s v parents)
                (λ r g. skip-IsWave c p s r (ground (arith, got)) g)))
