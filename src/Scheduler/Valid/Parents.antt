-- ===== src/Scheduler/Valid/Parents.antt =====
-- scheduler.go: the manifests that a task reads, against the state.
use go_spark.Prelude.{
  ℕ, zero, suc, ◌+◌, ◌<◌, ◌≤◌, ◌≡◌, sym, ap, subst, Bool-cases, inl, inr, true, Option-cases, some,
  List, [], ◌∷◌, arith, ◌==◌, All, get_elem?, All-get_elem?, dec_lt,
}
use go_spark.Prelude.Maps.{lookup, contains, nat_eq, pair_eq}
use go_spark.Planner.{Stage, shuffle_map}
use go_spark.Planner.Stages.{Numbered, IsWaiting, IsMapStage}
use go_spark.Planner.Ordered.{stage_by_id}
use go_spark.Scheduler.{ExecResult, Job, Scheduler}
use go_spark.Scheduler.Checks.{MapMatches}
use go_spark.Scheduler.Recovery.{Accepted}
use go_spark.Scheduler.Recovery.Ready.{has}
use go_spark.Scheduler.Recovery.Repairs.{IsDag}
use go_spark.Scheduler.Recovery.Dropped.{All-contains}
use go_spark.Scheduler.Tasks.{manifest_of}
use go_spark.Scheduler.Retry.{Ensure, ensure_partitions, ensure_parents}
use go_spark.Scheduler.Gives.{Gives, Gives-ok, Gives->>=}
use go_spark.Scheduler.Valid.{IsAnswer, IsValid, Kept, Later-refl, Kept-trans}
use go_spark.Scheduler.Valid.Accepting.{stage_by_id-Numbered}

-- A parent of a stage is a map stage of the plan that comes before it.
abbrev pub IsParent : List Stage → Stage → Stage → Type 0
IsParent stages st parent =
    (stage_by_id parent.id stages ≡ some parent) × (parent.id < st.id) × (parent.kind ≡ shuffle_map)

-- The result of a map task has a manifest.
pub manifest_of-IsAnswer :
    (j : Job) (st : Stage) (s : Scheduler) (p : ℕ) (res : ExecResult)
    → st.kind ≡ shuffle_map
    → IsAnswer j st s p res
    → Gives (λ m. Unit {0}) (manifest_of (some res))
unfolding manifest_of
manifest_of-IsAnswer j st s p res map (t, task, at_p, answers) =
    let matches : MapMatches shuffle_map t st res.manifest =
      subst (λ k. MapMatches k t st res.manifest) map answers.map_matches in
    elim (Option-cases res.manifest) [
      | inl absent ↦ elim (subst (MapMatches shuffle_map t st) absent matches) [ ]
      | inr (m, at) ↦ rw at (Gives-ok tt)
    ]

pub has-lookup :
    (k : ℕ × ℕ) (m : Accepted) → has k m ≡ true → (res : ExecResult) × (lookup k m ≡ some res)
has-lookup k m h = elim (Option-cases (lookup k m)) [
  | inl e ↦ absurd (ground (arith, e, h))
  | inr r ↦ r
]

pub lookup-has :
    (k : ℕ × ℕ) (m : Accepted) (res : ExecResult) → lookup k m ≡ some res → has k m ≡ true
lookup-has k m res e = ground (arith, e)

pub All-stage_by_id :
    (P : Stage → Type 0) (id : ℕ) (stages : List Stage) (st : Stage)
    → All P stages
    → stage_by_id id stages ≡ some st
    → P st
unfolding stage_by_id
All-stage_by_id P id [] st h e = cc
All-stage_by_id P id (x ∷ stages) st h e = elim (Bool-cases (x.id == id)) [
  | inl hit ↦ let same : x ≡ st = ground (arith, hit, e) in subst P same h.0
  | inr miss ↦ All-stage_by_id P id stages st h.1 (rw miss at e)
]

get_elem?-Numbered :
    (i : ℕ) (stages : List Stage) (q : ℕ) (st : Stage)
    → Numbered i stages
    → get_elem? stages q ≡ some st
    → i + q ≡ st.id
get_elem?-Numbered i [] q st n e = cc
get_elem?-Numbered i (x ∷ stages) zero st n e =
    let same : x ≡ st = cc in omega (arith, n.0, ap (λ y. y.id) same)
get_elem?-Numbered i (x ∷ stages) (suc q) st n e =
    omega (arith, get_elem?-Numbered (suc i) stages q st n.1 e)

-- The stages that a stage waits for.
pub find-IsParent :
    (stages : List Stage) (st : Stage)
    → IsDag stages
    → stage_by_id st.id stages ≡ some st
    → (q : ℕ) → contains q st.parents ≡ true
    → (parent : Stage) × (stage_by_id q stages ≡ some parent)
      × (parent.id ≡ q)
      × IsParent stages st parent
find-IsParent stages st (numbered, waiting) at q in_parents =
    let (before, (parent, found, map)) =
      All-contains (λ n. (n < st.id) × IsMapStage stages n) st.parents q
        (All-stage_by_id (IsWaiting stages) st.id stages st waiting at) in_parents in
    let id : parent.id ≡ q = omega (arith, get_elem?-Numbered 0 stages q parent numbered found) in
    let by_id = All-get_elem? _ stages q parent (stage_by_id-Numbered stages numbered) found in
    (
      parent,
      subst (λ n. stage_by_id n stages ≡ some parent) id by_id,
      id,
      (by_id, omega (arith, id, before), map),
    )

module _ (j : Job) (ensure : Ensure) where
  -- What is asked of `ensure` at a stage.
  abbrev pub Ensures : Stage → Type 0
  Ensures st =
      (p : ℕ) (s : Scheduler)
      → IsValid j s
      → Gives (λ r. Kept j s r.1 × (lookup (st.id, p) r.1.accepted ≡ some r.0)) (ensure st p s)

  ensure_partitions-Kept :
      (parent : Stage)
      → stage_by_id parent.id j.stages ≡ some parent
      → parent.kind ≡ shuffle_map
      → Ensures parent
      → (c p : ℕ) (s : Scheduler) → IsValid j s
      → Gives
          (λ r.
            Kept j s r.1
            × (r.1.repairs ≡ s.repairs
                → (q : ℕ) → p ≤ q
                → q < p + c
                → has (parent.id, q) r.1.accepted ≡ true))
          (ensure_partitions ensure parent c p s)
  unfolding ensure_partitions
  ensure_partitions-Kept parent at map ensures zero p s v =
      Gives-ok ((v, Later-refl s), λ e q le lt. absurd (omega arith))
  ensure_partitions-Kept parent at map ensures (suc c) p s v =
      Gives->>= _ (ensures p s v) (λ r (kept, got).
        Gives->>= _
          (manifest_of-IsAnswer j parent r.1 p r.0 map (kept.0.answers parent p r.0 at got))
          (λ m u.
            Gives->>= _ (ensure_partitions-Kept parent at map ensures c (p + 1) r.1 kept.0)
              (λ rest (kept', all). Gives-ok (
                Kept-trans j kept.1 kept',
                λ e q le lt.
                    let same : rest.1.repairs ≡ r.1.repairs =
                      omega (arith, e, kept.1.repairs, kept'.1.repairs) in
                    elim (dec_lt p q) [
                      | yes later ↦ all same q (omega arith) (omega arith)
                      | no here ↦
                          let first : p ≡ q = omega arith in
                          subst (λ n. has (parent.id, n) rest.1.accepted ≡ true) first
                            (kept'.1.stays same (parent.id, p)
                              (lookup-has (parent.id, p) r.1.accepted r.0 got))
                    ],
              ))))

  -- Every number of a list is the ID of a map stage that `ensure` can run.
  abbrev pub EnsuresAll : List ℕ → Type 0
  EnsuresAll ids =
      (q : ℕ)
      → contains q ids ≡ true
      → (parent : Stage) × (stage_by_id q j.stages ≡ some parent)
        × (parent.id ≡ q)
        × (parent.kind ≡ shuffle_map)
        × Ensures parent

  abbrev HasAll : List ℕ → Accepted → Type 0
  HasAll ids m =
      (q r : ℕ) (parent : Stage)
      → contains q ids ≡ true
      → stage_by_id q j.stages ≡ some parent
      → r < parent.num_partitions
      → has (q, r) m ≡ true

  abbrev KeepsAll : List ℕ → Scheduler → Type 0
  KeepsAll ids s =
      Gives (λ r. Kept j s r.1 × (r.1.repairs ≡ s.repairs → HasAll ids r.1.accepted))
        (ensure_parents ensure j.stages ids s)

  ensure_parents-more :
      (id : ℕ) (ids : List ℕ) (parent : Stage) (s : Scheduler)
      → stage_by_id id j.stages ≡ some parent
      → parent.id ≡ id
      → parent.kind ≡ shuffle_map
      → Ensures parent
      → ((s' : Scheduler) → IsValid j s' → KeepsAll ids s')
      → IsValid j s
      → Gives
          (λ r. Kept j s r.1 × (r.1.repairs ≡ s.repairs → HasAll (id ∷ ids) r.1.accepted))
          (ensure_parents ensure j.stages (id ∷ ids) s)
  unfolding ensure_parents
  ensure_parents-more id ids parent s at same_id map ensures more v =
      let at_id : stage_by_id parent.id j.stages ≡ some parent =
        subst (λ n. stage_by_id n j.stages ≡ some parent) (sym same_id) at in
      rw (at, ensure_parents)
        (Gives->>= _ (ensure_partitions-Kept parent at_id map ensures parent.num_partitions 0 s v)
          (λ r (kept, first). Gives->>= _ (more r.1 kept.0) (λ rest (kept', others). Gives-ok (
            Kept-trans j kept.1 kept',
            λ e q r' parent' in_ids found lt.
                let same : rest.1.repairs ≡ r.1.repairs =
                  omega (arith, e, kept.1.repairs, kept'.1.repairs) in
                elim (Bool-cases (id == q)) [
                  | inl hit ↦
                      let is_q : parent.id ≡ q = ground (arith, hit, same_id) in
                      let is_parent : parent' ≡ parent = ground (arith, hit, at, found) in
                      kept'.1.stays same (q, r')
                        (subst (λ n. has (n, r') r.1.accepted ≡ true) is_q
                          (first (omega (arith, e, kept.1.repairs, kept'.1.repairs)) r'
                            (omega arith)
                            (subst (λ x. r' < 0 + x.num_partitions) is_parent (omega (arith, lt)))))
                  | inr miss ↦ others same q r' parent' (rw miss at in_ids) found lt
                ],
          ))))

  pub ensure_parents-Kept :
      (ids : List ℕ) (s : Scheduler) → EnsuresAll ids → IsValid j s → KeepsAll ids s
  unfolding ensure_parents
  ensure_parents-Kept [] s a v = Gives-ok ((v, Later-refl s), λ e q r parent in_ids. cc)
  ensure_parents-Kept (id ∷ ids) s a v =
      let (parent, at, same_id, map, ensures) = a id (ground arith) in
      ensure_parents-more id ids parent s at same_id map ensures
        (λ s' v'. ensure_parents-Kept ids s' (λ q h. a q (ground (arith, h))) v') v
