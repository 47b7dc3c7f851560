-- ===== src/Scheduler/Valid/Asking.antt =====
-- scheduler.go: the choice of a worker, the count of an attempt and the test of the context, against
-- the state.
use go_spark.Prelude.{
  ℕ, zero, suc, ◌+◌, refl, Bool-cases, inl, inr, ◌%◌, Option, none, some, List, arith,
}
use go_spark.Prelude.Maps.{contains, nat_eq, pair_eq, lookup-assign}
use go_spark.Planner.{Stage}
use go_spark.Scheduler.{
  PartitionKey, Manifest, Job, Scheduler, Runners, note_worker_id, pick_loop, picked,
  pick_worker_index_for,
}
use go_spark.Scheduler.Tasks.{
  World, attempts_of, tick, make_task, count_attempt, check_canceled, pick, stage_cache_hints,
}
use go_spark.Scheduler.Gives.{Gives, Gives-ok, Gives-err, Gives-if}
use go_spark.Scheduler.Valid.{IsTask, IsValid, Later, Same, Same-trans, IsTask-Later}

Same-refl : (s : Scheduler) → Same s s
Same-refl s = record { accepted = refl; attempts = refl; repairs = refl }

note_worker_id-Same : (index id : ℕ) (s : Scheduler) → Same s (note_worker_id index id s)
unfolding note_worker_id
note_worker_id-Same index id s = record { accepted = refl; attempts = refl; repairs = refl }

module _ (r : Runners) (num_runners : ℕ) (used : List ℕ) (hints : List PartitionKey) where
  pick_loop-Same :
      (n i : ℕ) (s : Scheduler) (best : Option (ℕ × ℕ))
      → Same s (pick_loop r num_runners used hints n i s best).0
  unfolding pick_loop
  pick_loop-Same zero i s best = Same-refl s
  pick_loop-Same (suc n) i s best =
      elim (Bool-cases (contains ((s.worker + i) % num_runners) used)) [
        | inl taken ↦ rw taken (pick_loop-Same n (i + 1) s best)
        | inr free ↦ rw free (elim (Bool-cases (r.alive ((s.worker + i) % num_runners))) [
          | inl live ↦
              rw live (Same-trans (note_worker_id-Same _ _ s) (pick_loop-Same n (i + 1) _ _))
          | inr dead ↦ rw dead (
              Same-trans (record { accepted = refl; attempts = refl; repairs = refl })
                (pick_loop-Same n (i + 1) _ best))
        ])
      ]

  picked-Same :
      (s : Scheduler) (best : Option (ℕ × ℕ)) → Same s (picked r num_runners used hints s best).0
  unfolding picked
  picked-Same s none = Same-refl s
  picked-Same s (some (best, best_score)) = record {
    accepted = refl;
    attempts = refl;
    repairs = refl;
  }

  pick_worker_index_for-Same :
      (s : Scheduler) → Same s (pick_worker_index_for r num_runners used hints s).0
  unfolding pick_worker_index_for
  pick_worker_index_for-Same s = Same-trans (pick_loop-Same num_runners 0 s none) (picked-Same _ _)

pub pick-Same :
    (w : World) (j : Job) (used : List ℕ) (st : Stage) (p : ℕ) (s : Scheduler)
    → Same s (pick w j used st p s).0
unfolding pick
pick-Same w j used st p s =
    Same-trans (record { accepted = refl; attempts = refl; repairs = refl })
      (pick_worker_index_for-Same (w.runners s.clock) j.num_runners used (stage_cache_hints j st p)
        (tick s))

pub check_canceled-Same :
    (w : World) (j : Job) (s : Scheduler) → Gives (Same s) (check_canceled w j s)
unfolding check_canceled
check_canceled-Same w j s =
    Gives-if (w.canceled s.clock) _ _ (λ e. Gives-err tt)
      (λ e. Gives-ok (record { accepted = refl; attempts = refl; repairs = refl }))

pub count_attempt-Later : (st : Stage) (p : ℕ) (s : Scheduler) → Later s (count_attempt st p s)
unfolding count_attempt
count_attempt-Later st p s = record {
  repairs = omega arith;
  stays = λ e key h. h;
  attempts = λ key. ground (
    arith,
    lookup-assign key (st.id, p) (attempts_of (st.id, p) s.attempts + 1) s.attempts,
    pair_eq.beq_iff (st.id, p) key,
  );
}

-- The task of a partition, once its attempt is counted.
pub make_task-IsTask :
    (j : Job) (st : Stage) (p : ℕ) (upstream : List Manifest) (s : Scheduler)
    → IsTask j st (count_attempt st p s) (make_task j st p upstream s)
unfolding make_task count_attempt
make_task-IsTask j st p upstream s = record {
  of_job = refl;
  of_stage = refl;
  saves = refl;
  counted = ground (
    arith,
    lookup-assign (st.id, p) (st.id, p) (attempts_of (st.id, p) s.attempts + 1) s.attempts,
  );
}

-- A state that only adds attempts is well-formed, too.
pub count_attempt-IsValid :
    (j : Job) (st : Stage) (p : ℕ) (s : Scheduler) → IsValid j s → IsValid j (count_attempt st p s)
unfolding count_attempt
count_attempt-IsValid j st p s v = record {
  answers = λ st' q res at got.
      let (t, task, at_q, answers) = v.answers st' q res at got in
      (t, IsTask-Later j st' t (count_attempt-Later st p s) task, at_q, answers);
  ready = v.ready;
  within = v.within;
}
