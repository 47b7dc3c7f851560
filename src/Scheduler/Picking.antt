-- ===== src/Scheduler/Picking.antt =====
-- scheduler.go: which worker pickWorkerIndexFor picks.
use native.Mathlib.Nat.{mod-lt, mod-eq_of_lt, add-mod_right}
use go_spark.Prelude.{
  ℕ, zero, suc, ◌+◌, ◌-◌, ◌%◌, ◌<◌, ◌≤◌, ◌≡◌, ◌≢◌, ◌⊎◌, refl, ◌∙◌, ap, subst, true, false, inl, inr,
  Option, none, some, List, arith, ltb, Bool-cases, dec_lt,
}
use go_spark.Prelude.Maps.{contains, nat_eq}
use go_spark.Scheduler.{
  PartitionKey, Scheduler, Runners, better, pick_loop, picked, pick_worker_index_for,
}

module _ (r : Runners) (num_runners : ℕ) (used : List ℕ) (hints : List PartitionKey) where
  -- A worker of the pool that is alive and not in use.
  pub record IsFit (index : ℕ) : Type 0 where
    pub in_pool : index < num_runners
    pub unused : contains index used ≡ false
    pub alive : r.alive index ≡ true

  abbrev FitBest : Option (ℕ × ℕ) → Type 0
  FitBest none = Unit
  FitBest (some (best, best_score)) = IsFit best

  FitBest-better :
      (best : Option (ℕ × ℕ)) (index candidate : ℕ)
      → IsFit index
      → FitBest best
      → FitBest (better best index candidate)
  FitBest-better none index candidate f h = f
  FitBest-better (some (b, sc)) index candidate f h = elim (Bool-cases (ltb sc candidate)) [
    | inl more ↦ rw more f
    | inr less ↦ rw less h
  ]

  pick_loop-FitBest :
      (n i : ℕ) (s : Scheduler) (best : Option (ℕ × ℕ))
      → 0 < num_runners
      → FitBest best
      → FitBest (pick_loop r num_runners used hints n i s best).1
  unfolding pick_loop
  pick_loop-FitBest zero i s best pos h = h
  pick_loop-FitBest (suc n) i s best pos h =
      elim (Bool-cases (contains ((s.worker + i) % num_runners) used)) [
        | inl taken ↦ rw taken (pick_loop-FitBest n (i + 1) s best pos h)
        | inr free ↦ rw free (elim (Bool-cases (r.alive ((s.worker + i) % num_runners))) [
          | inl live ↦ rw live (
              pick_loop-FitBest n (i + 1) _ _ pos (
                FitBest-better best _ _
                  (record { in_pool = mod-lt (s.worker + i) pos; unused = free; alive = live }) h))
          | inr dead ↦ rw dead (pick_loop-FitBest n (i + 1) _ best pos h)
        ])
      ]

  abbrev pub IsUnfit : ℕ → Type 0
  IsUnfit index = (contains index used ≡ true) ⊎ (r.alive index ≡ false)

  better-ne-none :
      (best : Option (ℕ × ℕ)) (index candidate : ℕ) → better best index candidate ≢ none
  better-ne-none none index candidate e = cc
  better-ne-none (some (b, sc)) index candidate e = ground arith

  pick_loop-ne-none :
      (n i : ℕ) (s : Scheduler) (best : Option (ℕ × ℕ))
      → best ≢ none
      → (pick_loop r num_runners used hints n i s best).1 ≢ none
  unfolding pick_loop
  pick_loop-ne-none zero i s best h = h
  pick_loop-ne-none (suc n) i s best h =
      elim (Bool-cases (contains ((s.worker + i) % num_runners) used)) [
        | inl taken ↦ rw taken (pick_loop-ne-none n (i + 1) s best h)
        | inr free ↦ rw free (elim (Bool-cases (r.alive ((s.worker + i) % num_runners))) [
          | inl live ↦ rw live (pick_loop-ne-none n (i + 1) _ _ (better-ne-none best _ _))
          | inr dead ↦ rw dead (pick_loop-ne-none n (i + 1) _ best h)
        ])
      ]

  -- every worker that the loop passes by is in use or dead, if nothing is picked
  passed_by :
      (n i k : ℕ) (s : Scheduler) (best : Option (ℕ × ℕ))
      → (pick_loop r num_runners used hints n i s best).1 ≡ none
      → i ≤ k
      → k < i + n
      → IsUnfit ((s.worker + k) % num_runners)
  unfolding pick_loop
  passed_by zero i k s best e le lt = absurd (omega arith)
  passed_by (suc n) i k s best e le lt =
      elim (Bool-cases (contains ((s.worker + i) % num_runners) used)) [
        | inl taken ↦ elim (dec_lt i k) [
          | yes later ↦ passed_by n (i + 1) k s best (rw taken at e) (omega arith) (omega arith)
          | no here ↦
              let same : i ≡ k = omega arith in
              inl (subst (λ m. contains ((s.worker + m) % num_runners) used ≡ true) same taken)
        ]
        | inr free ↦ elim (Bool-cases (r.alive ((s.worker + i) % num_runners))) [
          | inl live ↦
              absurd
                (pick_loop-ne-none n (i + 1) _ _ (better-ne-none best _ _) (rw (free, live) at e))
          | inr dead ↦ elim (dec_lt i k) [
            | yes later ↦
                passed_by n (i + 1) k _ best (rw (free, dead) at e) (omega arith) (omega arith)
            | no here ↦
                let same : i ≡ k = omega arith in
                inr (subst (λ m. r.alive ((s.worker + m) % num_runners) ≡ false) same dead)
          ]
        ]
      ]

  mod_of_eq : (a b : ℕ) → a ≡ b → a % num_runners ≡ b % num_runners
  mod_of_eq a b e = ap (λ n. n % num_runners) e

  -- the rounds come past each worker
  round_of :
      (worker index : ℕ)
      → worker < num_runners
      → index < num_runners
      → (k : ℕ) × (k < num_runners) × ((worker + k) % num_runners ≡ index)
  round_of worker index w h = elim (dec_lt index worker) [
    | yes before ↦ (
      index + num_runners - worker,
      omega arith,
      mod_of_eq _ (index + num_runners) (omega arith)
          ∙ add-mod_right index num_runners
          ∙ mod-eq_of_lt h,
    )
    | no after ↦ (index - worker, omega arith, mod_of_eq _ index (omega arith) ∙ mod-eq_of_lt h)
  ]

  picked-ne-none :
      (s : Scheduler) (best : Option (ℕ × ℕ))
      → (picked r num_runners used hints s best).1 ≡ none
      → best ≡ none
  unfolding picked
  picked-ne-none s none e = refl
  picked-ne-none s (some (b, sc)) e = absurd (cc)

  picked-FitBest :
      (s : Scheduler) (best : Option (ℕ × ℕ)) (index : ℕ)
      → FitBest best
      → (picked r num_runners used hints s best).1 ≡ some index
      → IsFit index
  unfolding picked
  picked-FitBest s none index h e = absurd (cc)
  picked-FitBest s (some (b, sc)) index h e =
      let same : b ≡ index = ground arith in subst IsFit same h

  -- With at least one worker in the pool, a worker that pickWorkerIndexFor returns is of the pool,
  -- alive and not in use.
  pub pick_worker_index_for-IsFit :
      (s : Scheduler) (index : ℕ)
      → 0 < num_runners
      → (pick_worker_index_for r num_runners used hints s).1 ≡ some index
      → IsFit index
  unfolding pick_worker_index_for
  pick_worker_index_for-IsFit s index pos e =
      picked-FitBest (pick_loop r num_runners used hints num_runners 0 s none).0
        (pick_loop r num_runners used hints num_runners 0 s none).1 index
        (pick_loop-FitBest num_runners 0 s none pos tt) e

  -- pickWorkerIndexFor returns -1 only if every worker of the pool is in use or not alive, for a
  -- scheduler whose next worker is of the pool.
  pub pick_worker_index_for-none :
      (s : Scheduler) (index : ℕ)
      → s.worker < num_runners
      → (pick_worker_index_for r num_runners used hints s).1 ≡ none
      → index < num_runners
      → IsUnfit index
  unfolding pick_worker_index_for
  pick_worker_index_for-none s index w e h =
      let (k, lt, at) = round_of s.worker index w h in
      subst IsUnfit at (
        passed_by num_runners 0 k s none
          (picked-ne-none (pick_loop r num_runners used hints num_runners 0 s none).0
            (pick_loop r num_runners used hints num_runners 0 s none).1 e)
          (omega arith) (omega arith))
