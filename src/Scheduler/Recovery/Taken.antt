-- ===== src/Scheduler/Recovery/Taken.antt =====
-- scheduler.go: what invalidate leaves of the accepted results and of the attempts.
use go_spark.Prelude.{ℕ, zero, suc, ◌≡◌, refl, some, List, [], ◌∷◌, arith}
use go_spark.Prelude.Maps.{lookup, delete, nat_eq, pair_eq, lookup-delete}
use go_spark.Planner.{Stage}
use go_spark.Planner.Ordered.{ordered_stages}
use go_spark.Scheduler.{PartitionKey, ExecResult, FetchError, Job, Scheduler}
use go_spark.Scheduler.Recovery.{Accepted, clear_partitions, clear_stage, discard, repair}

-- Results are only taken away.
abbrev pub Sub : Accepted → Accepted → Type 0
Sub m m' =
    (key : PartitionKey) (res : ExecResult) → lookup key m ≡ some res → lookup key m' ≡ some res

delete-Sub : (k : PartitionKey) (m : Accepted) → Sub (delete k m) m
delete-Sub k m key res e = ground (arith, lookup-delete key k m)

clear_partitions-Sub : (id n : ℕ) (m : Accepted) → Sub (clear_partitions id n m) m
unfolding clear_partitions
clear_partitions-Sub id zero m key res e = e
clear_partitions-Sub id (suc n) m key res e =
    clear_partitions-Sub id n m key res (delete-Sub (id, n) (clear_partitions id n m) key res e)

discard-Sub :
    (source : ℕ) (stages : List Stage) (affected : List ℕ) (s : Scheduler)
    → Sub (discard source stages affected s).1.accepted s.accepted
unfolding discard clear_stage
discard-Sub source [] affected s key res e = e
discard-Sub source (st ∷ stages) affected s key res e = ground (
  arith,
  discard-Sub source stages affected s key res,
  discard-Sub source stages (st.id ∷ affected) (clear_stage st s) key res,
  clear_partitions-Sub st.id st.num_partitions s.accepted key res,
)

discard-attempts :
    (source : ℕ) (l : List Stage) (a : List ℕ) (s : Scheduler)
    → (discard source l a s).1.attempts ≡ s.attempts
unfolding discard clear_stage
discard-attempts source [] a s = refl
discard-attempts source (st ∷ l) a s =
    ground (
      arith,
      discard-attempts source l a s,
      discard-attempts source l (st.id ∷ a) (clear_stage st s),
    )

pub repair-Sub :
    (j : Job) (source : Stage) (e : FetchError) (s : Scheduler)
    → Sub (repair j source e s).accepted s.accepted
unfolding repair
repair-Sub j source e s key res got =
    delete-Sub (source.id, e.map_id) s.accepted key res
      (discard-Sub source.id (ordered_stages j.stages) (source.id ∷ []) _ key res got)

pub repair-attempts :
    (j : Job) (source : Stage) (e : FetchError) (s : Scheduler)
    → (repair j source e s).attempts ≡ s.attempts
unfolding repair
repair-attempts j source e s =
    discard-attempts source.id (ordered_stages j.stages) (source.id ∷ []) _
