-- ===== src/Scheduler/Recovery/Repairs.antt =====
-- scheduler.go: a repair by invalidate against the accepted results and the limit of repairs.
use go_spark.Prelude.{
  ℕ, ◌+◌, ◌<◌, ◌≤◌, ◌≡◌, refl, sym, subst, true, false, inl, inr, some, List, [], ◌∷◌, arith, ◌==◌,
  All, Bool-cases, Option-cases, All-imp,
}
use go_spark.Prelude.Maps.{lookup, delete, contains, nat_eq, pair_eq}
use go_spark.Prelude.Results.{ok}
use go_spark.Planner.{Stage}
use go_spark.Planner.Stages.{Numbered, IsWaiting}
use go_spark.Planner.Ordered.{Before, stage_by_id, ordered_stages, ordered_stages-Numbered}
use go_spark.Scheduler.{FetchError, Job, Scheduler}
use go_spark.Scheduler.Recovery.{
  Accepted, clear_stage, discard, repair, invalidate, find_source, is_current, or_unexpected,
}
use go_spark.Scheduler.Recovery.Ready.{
  has, has-delete, has-discard, discard-affected, discard-other,
}
use go_spark.Scheduler.Recovery.Dropped.{Dropped, discard-Dropped, discard-above, All-contains}

-- If a partition of a stage is accepted, all partitions of the parents of the stage are.
abbrev pub IsReadyStage : List Stage → Accepted → Stage → Type 0
IsReadyStage stages m st =
    (p q r : ℕ) (parent : Stage)
    → p < st.num_partitions
    → has (st.id, p) m ≡ true
    → contains q st.parents ≡ true
    → stage_by_id q stages ≡ some parent
    → r < parent.num_partitions
    → has (q, r) m ≡ true

abbrev pub IsReady : List Stage → Accepted → Type 0
IsReady stages m = All (IsReadyStage stages m) stages

module _ (stages : List Stage) (source : Stage) (map_id : ℕ) (s : Scheduler) where
  abbrev lost : Scheduler
  lost = record s { repairs = s.repairs + 1; accepted = delete (source.id, map_id) s.accepted }

  abbrev affected : List ℕ
  affected = (discard source.id stages (source.id ∷ []) lost).0

  abbrev left : Accepted
  left = (discard source.id stages (source.id ∷ []) lost).1.accepted

  -- a result that a repair takes away belongs to an affected stage
  taken-affected :
      (q r : ℕ)
      → has (q, r) s.accepted ≡ true
      → has (q, r) left ≡ false
      → contains q affected ≡ true
  taken-affected q r e f = ground (
    arith,
    discard-other source.id stages (source.id ∷ []) lost (q, r),
    e,
    f,
    has-delete (q, r) (source.id, map_id) s.accepted,
    discard-affected source.id stages (source.id ∷ []) lost q,
  )

  left-IsReadyStage :
      (st : Stage)
      → All Before stages
      → Before st
      → Dropped source.id affected left st
      → IsReadyStage stages s.accepted st
      → IsReadyStage stages left st
  left-IsReadyStage st w before dropped ready p q r parent lt has_p in_parents at lt' =
      let held : has (st.id, p) s.accepted ≡ true = ground (
        arith,
        has-discard source.id stages (source.id ∷ []) lost (st.id, p),
        has-delete (st.id, p) (source.id, map_id) s.accepted,
      ) in
      let parent_held = ready p q r parent lt held in_parents at lt' in
      elim (Bool-cases (has (q, r) left)) [
        | inl kept ↦ kept
        | inr taken ↦
            let hit = taken-affected q r parent_held taken in
            let above : source.id ≤ q =
              discard-above source.id stages (source.id ∷ []) lost w (λ k e. ground arith) q hit in
            let below : q < st.id = All-contains (λ n. n < st.id) st.parents q before in_parents in
            elim (dropped q p in_parents hit lt) [
              | inl same ↦ absurd (omega arith)
              | inr gone ↦ absurd (ground (arith, gone, has_p))
            ]
      ]

  left-IsReady :
      (l : List Stage)
      → All Before stages
      → All Before l
      → All (Dropped source.id affected left) l
      → All (IsReadyStage stages s.accepted) l
      → All (IsReadyStage stages left) l
  left-IsReady [] w b d h = tt
  left-IsReady (st ∷ l) w b d h = (left-IsReadyStage st w b.0 d.0 h.0, left-IsReady l w b.1 d.1 h.1)

abbrev pub IsDag : List Stage → Type 0
IsDag stages = Numbered 0 stages × All (IsWaiting stages) stages

repair-IsReady :
    (j : Job) (source : Stage) (e : FetchError) (s : Scheduler)
    → IsDag j.stages
    → IsReady j.stages s.accepted
    → IsReady j.stages (repair j source e s).accepted
unfolding repair
repair-IsReady j source e s (numbered, waiting) h =
    let before =
      All-imp (IsWaiting j.stages) Before j.stages (λ x a. All-imp _ _ x.parents (λ q b. b.0) a)
        waiting in
    subst
      (λ l.
        IsReady j.stages
          (discard source.id l (source.id ∷ []) (lost j.stages source e.map_id s)).1.accepted)
      (sym (ordered_stages-Numbered j.stages numbered waiting))
      (left-IsReady j.stages source e.map_id s j.stages before before
        (discard-Dropped source.id 0 j.stages (source.id ∷ []) _ numbered before) h)

-- What invalidate has tested when it repairs.
pub record IsRepair (j : Job) (e : FetchError) (consumer : Stage) (s s' : Scheduler)
    (source : Stage) : Type 0 where
  pub of_job : e.job_id ≡ j.job_id
  pub found : find_source j.stages e.shuffle_id consumer.parents ≡ some source
  pub current : is_current e.attempt (lookup (source.id, e.map_id) s.accepted) ≡ true
  pub allowed : s.repairs < j.max_recoveries
  pub repaired : s' ≡ repair j source e s

pub invalidate-IsRepair :
    (j : Job) (e : FetchError) (consumer : Stage) (s s' : Scheduler)
    → invalidate j e consumer s ≡ ok s'
    → (source : Stage) × IsRepair j e consumer s s' source
unfolding invalidate or_unexpected
invalidate-IsRepair j e consumer s s' h = elim (Bool-cases (e.job_id == j.job_id)) [
  | inr foreign ↦ absurd (ground (arith, foreign, h))
  | inl ours ↦ elim (Option-cases (find_source j.stages e.shuffle_id consumer.parents)) [
    | inl absent ↦ absurd (ground (arith, ours, absent, h))
    | inr (source, at) ↦ (
      source,
      record {
        of_job = ground arith;
        found = at;
        current = ground (arith, ours, at, h);
        allowed = ground (arith, ours, at, h);
        repaired = ground (arith, ours, at, h);
      },
    )
  ]
]

-- If invalidate repairs, it preserves, for stages that are numbered by their places and wait for
-- earlier map stages only, that whenever a partition of a stage is accepted, all partitions of the
-- parents of the stage are.
pub invalidate-IsReady :
    (j : Job) (e : FetchError) (consumer : Stage) (s s' : Scheduler)
    → IsDag j.stages
    → IsReady j.stages s.accepted
    → invalidate j e consumer s ≡ ok s'
    → IsReady j.stages s'.accepted
invalidate-IsReady j e consumer s s' dag h repaired =
    let (source, r) = invalidate-IsRepair j e consumer s s' repaired in
    subst (λ n. IsReady j.stages n.accepted) (sym r.repaired) (repair-IsReady j source e s dag h)

discard-repairs :
    (source : ℕ) (l : List Stage) (a : List ℕ) (s : Scheduler)
    → (discard source l a s).1.repairs ≡ s.repairs
unfolding discard clear_stage
discard-repairs source [] a s = refl
discard-repairs source (st ∷ l) a s =
    ground
      (arith, discard-repairs source l a s, discard-repairs source l (st.id ∷ a) (clear_stage st s))

-- the lost result is gone
repair-lost :
    (j : Job) (source : Stage) (e : FetchError) (s : Scheduler)
    → has (source.id, e.map_id) (repair j source e s).accepted ≡ false
unfolding repair
repair-lost j source e s = ground (
  arith,
  has-delete (source.id, e.map_id) (source.id, e.map_id) s.accepted,
  has-discard source.id (ordered_stages j.stages) (source.id ∷ []) (lost j.stages source e.map_id s)
      (source.id, e.map_id),
)

-- A repair is counted, within the limit, and takes away the lost output, a current one of a parent.
abbrev pub IsCounted : Job → FetchError → Stage → Scheduler → Scheduler → Type 0
IsCounted j e consumer s s' =
    (s'.repairs ≡ s.repairs + 1)
    × (s'.repairs ≤ j.max_recoveries)
    × ((source : Stage) × (find_source j.stages e.shuffle_id consumer.parents ≡ some source)
        × (is_current e.attempt (lookup (source.id, e.map_id) s.accepted) ≡ true)
        × (has (source.id, e.map_id) s'.accepted ≡ false))

repair-repairs :
    (j : Job) (source : Stage) (e : FetchError) (s : Scheduler)
    → (repair j source e s).repairs ≡ s.repairs + 1
unfolding repair
repair-repairs j source e s =
    discard-repairs source.id (ordered_stages j.stages) (source.id ∷ [])
      (lost j.stages source e.map_id s)

-- If invalidate repairs, it counts one more repair, at most the limit of the job, and the failure
-- names an accepted output of a parent of the consumer, which is no longer accepted.
pub invalidate-IsCounted :
    (j : Job) (e : FetchError) (consumer : Stage) (s s' : Scheduler)
    → invalidate j e consumer s ≡ ok s'
    → IsCounted j e consumer s s'
invalidate-IsCounted j e consumer s s' h =
    let (source, r) = invalidate-IsRepair j e consumer s s' h in
    let counted = repair-repairs j source e s in
    let allowed = r.allowed in
    subst (IsCounted j e consumer s) (sym r.repaired)
      (counted, omega arith, (source, r.found, r.current, repair-lost j source e s))
