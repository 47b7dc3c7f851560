-- ===== src/Scheduler/Valid/Repairing.antt =====
-- scheduler.go: a repair, against the state.
use go_spark.Prelude.{◌<◌, ◌≡◌, arith, inl, inr}
use go_spark.Prelude.Maps.{nat_eq, pair_eq}
use go_spark.Prelude.Results.{ok, Result-cases}
use go_spark.Planner.{Stage}
use go_spark.Scheduler.{FetchError, Job, Scheduler}
use go_spark.Scheduler.Recovery.{invalidate}
use go_spark.Scheduler.Recovery.Taken.{Sub, repair-Sub, repair-attempts}
use go_spark.Scheduler.Recovery.Repairs.{
  IsDag, invalidate-IsRepair, invalidate-IsReady, invalidate-IsCounted,
}
use go_spark.Scheduler.Retry.{recovered}
use go_spark.Scheduler.Gives.{Gives, Gives-ok, Gives-err}
use go_spark.Scheduler.Valid.{IsValid, Later, Kept, IsTask-Later}

-- What a repair leaves.
abbrev pub Repaired : Job → Scheduler → Scheduler → Type 0
Repaired j s s' = Kept j s s' × (s.repairs < s'.repairs)

invalidate-Repaired :
    (j : Job) (e : FetchError) (st : Stage) (s s' : Scheduler)
    → IsDag j.stages
    → IsValid j s
    → invalidate j e st s ≡ ok s'
    → Repaired j s s'
invalidate-Repaired j e st s s' dag v done =
    let counted = invalidate-IsCounted j e st s s' done in
    let (source, r) = invalidate-IsRepair j e st s s' done in
    let attempts : s'.attempts ≡ s.attempts = rw r.repaired (repair-attempts j source e s) in
    let taken : Sub s'.accepted s.accepted = rw r.repaired (repair-Sub j source e s) in
    let later : Later s s' = record {
      repairs = omega (arith, counted.0);
      stays = λ same. absurd (omega (arith, counted.0));
      attempts = λ key. rw attempts (omega arith);
    } in
    let valid : IsValid j s' = record {
      answers = λ st' p res at got.
          let (t, task, at_p, answers) = v.answers st' p res at (taken (st'.id, p) res got) in
          (t, IsTask-Later j st' t later task, at_p, answers);
      ready = invalidate-IsReady j e st s s' dag v.ready done;
      within = counted.1;
    } in
    ((valid, later), omega (arith, counted.0))

pub recovered-Repaired :
    (j : Job) (e : FetchError) (st : Stage) (s : Scheduler)
    → IsDag j.stages
    → IsValid j s
    → Gives (Repaired j s) (recovered (invalidate j e st s))
unfolding recovered
recovered-Repaired j e st s dag v = elim (Result-cases (invalidate j e st s)) [
  | inl (s', done) ↦ rw done (Gives-ok (invalidate-Repaired j e st s s' dag v done))
  | inr (e', stopped) ↦ rw stopped (Gives-err tt)
]
