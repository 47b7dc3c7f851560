-- ===== src/Scheduler/Valid/Marking.antt =====
-- scheduler.go: what sampleStage leaves: the samples of all partitions, and the bounds that they give.
use go_spark.Prelude.{
  sym, subst, ℕ, zero, suc, ◌+◌, ◌<◌, ◌≡◌, ◌⊎◌, true, Option, some, List, [], arith,
}
use go_spark.Prelude.Maps.{nat_eq, lookup, contains}
use go_spark.RangeSort.{append_sort_samples, select_range_bounds}
use go_spark.Planner.{Stage}
use go_spark.Scheduler.{ExecResult, Job, Scheduler}
use go_spark.Scheduler.Tasks.{World}
use go_spark.Scheduler.Samples.{Pool}
use go_spark.Scheduler.Valid.{Same}
use go_spark.Scheduler.Valid.Sampling.{IsSampleOf}

-- The samples of `c` partitions from `p` on, each by a result of its partition, are added to a pool.
abbrev pub AddsSamples : ℕ → ℕ → Pool → Pool → Type 0
AddsSamples zero p pool pool' = pool ≡ pool'
AddsSamples (suc c) p pool pool' =
    (res : ExecResult) × IsSampleOf p res
    × AddsSamples c (p + 1) (append_sort_samples pool.0 res.samples pool.1) pool'

pub AddsSamples-trans :
    (t c d p q : ℕ) (a b e : Pool)
    → t ≡ c + d
    → q ≡ p + c
    → AddsSamples c p a b
    → AddsSamples d q b e
    → AddsSamples t p a e
AddsSamples-trans t zero d p q a b e total at h k =
    let all : d ≡ t = omega (arith, total) in
    let here : q ≡ p = omega (arith, at) in
    subst (λ n. AddsSamples n p a e) all
      (subst (λ m. AddsSamples d m a e) here (subst (λ pool. AddsSamples d q pool e) (sym h) k))
AddsSamples-trans zero (suc c) d p q a b e total at h k = absurd (omega (arith, total))
AddsSamples-trans (suc t) (suc c) d p q a b e total at (res, is, h) k = (
  res,
  is,
  AddsSamples-trans t c d (p + 1) q _ b e (omega (arith, total)) (omega (arith, at)) h k,
)

module _ (w : World) (j : Job) (st : Stage) where
  -- The stage is marked as sampled, and its bounds are the encoded range bounds of the samples that
  -- each of its partitions sent.
  abbrev pub IsMarked : Scheduler → Type 0
  IsMarked s =
      (contains st.id s.sampled ≡ true)
      × ((pool : Pool) × AddsSamples st.num_partitions 0 ([], 0) pool
          × ((bounds : Option (List ℕ)) × ((blob : ℕ) × (select_range_bounds (j.sort_less st.id)
                    pool.0 st.num_reducers
                  ≡ some bounds)
                × (w.encode bounds ≡ some blob)
                × (lookup st.id s.bounds ≡ some blob))))

  -- How sampleStage ends: by a repair, or with the bounds of its stage and all that was accepted.
  abbrev pub IsSampledStage : Scheduler → Scheduler → Type 0
  IsSampledStage s s' = (s.repairs < s'.repairs) ⊎ (Same s s' × IsMarked s')
