-- ===== src/Scheduler/Recovery/Ready.antt =====
-- scheduler.go: what the loop of invalidate takes from the accepted results, and which stages it
-- affects.
use go_spark.Prelude.{
  ℕ, zero, suc, ◌<◌, ◌≡◌, refl, Bool, true, false, none, some, List, [], ◌∷◌, arith, ◌==◌,
  if◌then◌else◌,
}
use go_spark.Prelude.Maps.{lookup, delete, contains, nat_eq, pair_eq, lookup-delete}
use go_spark.Planner.{Stage}
use go_spark.Planner.Stages.{Numbered}
use go_spark.Scheduler.{PartitionKey, Scheduler}
use go_spark.Scheduler.Recovery.{Accepted, clear_partitions, clear_stage, discard}

-- `_, ok := s.accepted[key]`
abbrev pub has : PartitionKey → Accepted → Bool
has key m = elim (lookup key m) [ none ↦ false | some r ↦ true ]

pub has-delete :
    (j k : PartitionKey) (m : Accepted)
    → has j (delete k m) ≡ (if pair_eq.beq k j then false else has j m)
has-delete j k m = ground (arith, lookup-delete j k m)

has-clear_partitions :
    (id n : ℕ) (key : PartitionKey) (m : Accepted)
    → has key (clear_partitions id n m) ≡ true
    → has key m ≡ true
unfolding clear_partitions
has-clear_partitions id zero key m e = e
has-clear_partitions id (suc n) key m e =
    ground
      (arith, has-clear_partitions id n key m, has-delete key (id, n) (clear_partitions id n m))

-- a cleared partition is gone
pub clear_partitions-gone :
    (id n p : ℕ) (m : Accepted) → p < n → has (id, p) (clear_partitions id n m) ≡ false
unfolding clear_partitions
clear_partitions-gone id zero p m lt = absurd (omega arith)
clear_partitions-gone id (suc n) p m lt =
    ground
      (arith, clear_partitions-gone id n p m, has-delete (id, p) (id, n) (clear_partitions id n m))

-- the partitions of other stages stay
clear_partitions-other :
    (id n : ℕ) (key : PartitionKey) (m : Accepted)
    → (key.0 == id) ≡ false
    → has key (clear_partitions id n m) ≡ has key m
unfolding clear_partitions
clear_partitions-other id zero key m e = refl
clear_partitions-other id (suc n) (a, b) m e = ground (
  arith,
  clear_partitions-other id n (a, b) m e,
  has-delete (a, b) (id, n) (clear_partitions id n m),
)

module _ (source : ℕ) where
  -- discard only removes accepted results
  pub has-discard :
      (stages : List Stage) (affected : List ℕ) (s : Scheduler) (key : PartitionKey)
      → has key (discard source stages affected s).1.accepted ≡ true
      → has key s.accepted ≡ true
  unfolding discard clear_stage
  has-discard [] affected s key e = e
  has-discard (st ∷ stages) affected s key e = ground (
    arith,
    has-discard stages affected s key,
    has-discard stages (st.id ∷ affected) (clear_stage st s) key,
    has-clear_partitions st.id st.num_partitions key s.accepted,
  )

  -- an affected stage stays affected
  pub discard-affected :
      (stages : List Stage) (affected : List ℕ) (s : Scheduler) (k : ℕ)
      → contains k affected ≡ true
      → contains k (discard source stages affected s).0 ≡ true
  unfolding discard clear_stage
  discard-affected [] affected s k e = e
  discard-affected (st ∷ stages) affected s k e = ground (
    arith,
    discard-affected stages affected s k,
    discard-affected stages (st.id ∷ affected) (clear_stage st s) k,
  )

  -- the results of the other stages stay
  pub discard-other :
      (stages : List Stage) (affected : List ℕ) (s : Scheduler) (key : PartitionKey)
      → contains key.0 (discard source stages affected s).0 ≡ false
      → has key (discard source stages affected s).1.accepted ≡ has key s.accepted
  unfolding discard clear_stage
  discard-other [] affected s key e = refl
  discard-other (st ∷ stages) affected s key e = ground (
    arith,
    discard-other stages affected s key,
    discard-other stages (st.id ∷ affected) (clear_stage st s) key,
    clear_partitions-other st.id st.num_partitions key s.accepted,
    discard-affected stages (st.id ∷ affected) (clear_stage st s) key.0,
  )

  -- the stages that the loop adds are those of its list
  pub discard-new :
      (i : ℕ) (stages : List Stage) (affected : List ℕ) (s : Scheduler) (k : ℕ)
      → Numbered i stages
      → k < i
      → contains k (discard source stages affected s).0 ≡ contains k affected
  unfolding discard clear_stage
  discard-new i [] affected s k h lt = refl
  discard-new i (st ∷ stages) affected s k h lt =
      let id : st.id ≡ i = h.0 in
      ground (
        arith,
        id,
        discard-new (suc i) stages affected s k h.1 (omega arith),
        discard-new (suc i) stages (st.id ∷ affected) (clear_stage st s) k h.1 (omega arith),
      )
