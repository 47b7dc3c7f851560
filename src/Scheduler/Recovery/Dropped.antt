-- ===== src/Scheduler/Recovery/Dropped.antt =====
-- scheduler.go: the stages with an affected parent after the loop of invalidate.
use go_spark.Prelude.{
  ℕ, suc, ◌<◌, ◌≤◌, ◌≡◌, ◌⊎◌, sym, subst, true, false, not, ◌&&◌, inl, inr, List, [], ◌∷◌, arith,
  ◌==◌, All, Bool-cases,
}
use go_spark.Prelude.Maps.{contains, nat_eq, pair_eq}
use go_spark.Planner.{Stage}
use go_spark.Planner.Stages.{Numbered}
use go_spark.Planner.Ordered.{Before}
use go_spark.Scheduler.{Scheduler}
use go_spark.Scheduler.Recovery.{Accepted, clear_stage, has_affected, discard}
use go_spark.Scheduler.Recovery.Ready.{has, clear_partitions-gone, has-discard, discard-new}

pub All-contains : (P : ℕ → Type 0) (l : List ℕ) (q : ℕ) → All P l → contains q l ≡ true → P q
All-contains P [] q a e = cc
All-contains P (x ∷ l) q a e = elim (Bool-cases (x == q)) [
  | inl hit ↦ let same : x ≡ q = ground arith in subst P same a.0
  | inr miss ↦ All-contains P l q a.1 (rw miss at e)
]

contains-has_affected :
    (affected parents : List ℕ) (q : ℕ)
    → contains q parents ≡ true
    → contains q affected ≡ true
    → has_affected affected parents ≡ true
contains-has_affected affected [] q e a = cc
contains-has_affected affected (x ∷ parents) q e a = elim (Bool-cases (x == q)) [
  | inl hit ↦ let same : x ≡ q = ground arith in ground (arith, same, a)
  | inr miss ↦ ground (arith, contains-has_affected affected parents q (rw miss at e) a)
]

module _ (source : ℕ) where
  -- A stage with an affected parent has no accepted result, if it is not the source.
  abbrev pub Dropped : List ℕ → Accepted → Stage → Type 0
  Dropped affected m st =
      (q p : ℕ)
      → contains q st.parents ≡ true
      → contains q affected ≡ true
      → p < st.num_partitions
      → (st.id ≡ source) ⊎ (has (st.id, p) m ≡ false)

  abbrev pub AllDropped : List Stage → List ℕ × Scheduler → Type 0
  AllDropped stages d = All (Dropped d.0 d.1.accepted) stages

  discard-skip :
      (st : Stage) (stages : List Stage) (affected : List ℕ) (s : Scheduler)
      → not (st.id == source) && has_affected affected st.parents ≡ false
      → discard source (st ∷ stages) affected s ≡ discard source stages affected s
  unfolding discard
  discard-skip st stages affected s e = ground arith

  discard-clear :
      (st : Stage) (stages : List Stage) (affected : List ℕ) (s : Scheduler)
      → (st.id == source) ≡ false
      → has_affected affected st.parents ≡ true
      → discard source (st ∷ stages) affected s
        ≡ discard source stages (st.id ∷ affected) (clear_stage st s)
  unfolding discard
  discard-clear st stages affected s e f = ground arith

  clear_stage-gone :
      (st : Stage) (stages : List Stage) (affected : List ℕ) (s : Scheduler) (p : ℕ)
      → p < st.num_partitions
      → has (st.id, p) (discard source stages (st.id ∷ affected) (clear_stage st s)).1.accepted
        ≡ false
  unfolding clear_stage
  clear_stage-gone st stages affected s p lt = ground (
    arith,
    has-discard source stages (st.id ∷ affected) (clear_stage st s) (st.id, p),
    clear_partitions-gone st.id st.num_partitions p s.accepted lt,
  )

  miss-Dropped :
      (i : ℕ) (st : Stage) (stages : List Stage) (affected : List ℕ) (s : Scheduler)
      → Numbered i (st ∷ stages)
      → Before st
      → has_affected affected st.parents ≡ false
      → Dropped
          (discard source stages affected s).0
          (discard source stages affected s).1.accepted
          st
  miss-Dropped i st stages affected s h w miss q p e a lt =
      let before : q < st.id = All-contains (λ n. n < st.id) st.parents q w e in
      let id : st.id ≡ i = h.0 in
      absurd (
        ground (
          arith,
          discard-new source (suc i) stages affected s q h.1 (omega arith),
          miss,
          e,
          a,
          contains-has_affected affected st.parents q e,
        ))

  pub discard-Dropped :
      (i : ℕ) (stages : List Stage) (affected : List ℕ) (s : Scheduler)
      → Numbered i stages
      → All Before stages
      → AllDropped stages (discard source stages affected s)
  discard-Dropped i [] affected s h w = tt
  discard-Dropped i (st ∷ stages) affected s h w = elim (Bool-cases (st.id == source)) [
    | inl same ↦
        subst (AllDropped (st ∷ stages)) (sym (discard-skip st stages affected s (ground arith)))
          (λ q p e a lt. inl (ground arith), discard-Dropped (suc i) stages affected s h.1 w.1)
    | inr other ↦ elim (Bool-cases (has_affected affected st.parents)) [
      | inl hit ↦
          subst (AllDropped (st ∷ stages)) (sym (discard-clear st stages affected s other hit)) (
            λ q p e a lt. inr (clear_stage-gone st stages affected s p lt),
            discard-Dropped (suc i) stages (st.id ∷ affected) (clear_stage st s) h.1 w.1,
          )
      | inr miss ↦
          subst (AllDropped (st ∷ stages)) (sym (discard-skip st stages affected s (ground arith)))
            (
              miss-Dropped i st stages affected s h w.0 miss,
              discard-Dropped (suc i) stages affected s h.1 w.1,
            )
    ]
  ]

  has_affected-above :
      (affected parents : List ℕ) (n : ℕ)
      → ((k : ℕ) → contains k affected ≡ true → source ≤ k)
      → All (λ q. q < n) parents
      → has_affected affected parents ≡ true
      → source ≤ n
  has_affected-above affected [] n f a e = cc
  has_affected-above affected (q ∷ parents) n f a e = elim (Bool-cases (contains q affected)) [
    | inl hit ↦ let before : q < n = a.0 in omega (arith, f q hit, before)
    | inr miss ↦ has_affected-above affected parents n f a.1 (rw miss at e)
  ]

  -- the affected stages do not come before the source
  pub discard-above :
      (stages : List Stage) (affected : List ℕ) (s : Scheduler)
      → All Before stages
      → ((k : ℕ) → contains k affected ≡ true → source ≤ k)
      → (k : ℕ) → contains k (discard source stages affected s).0 ≡ true
      → source ≤ k
  unfolding discard clear_stage
  discard-above [] affected s w f k e = f k e
  discard-above (st ∷ stages) affected s w f k e = elim (Bool-cases (st.id == source)) [
    | inl same ↦ discard-above stages affected s w.1 f k (rw same at e)
    | inr other ↦ elim (Bool-cases (has_affected affected st.parents)) [
      | inl hit ↦
          discard-above stages (st.id ∷ affected) (clear_stage st s) w.1
            (λ n e'. ground (arith, f n, has_affected-above affected st.parents st.id f w.0 hit)) k
            (rw (other, hit) at e)
      | inr miss ↦ discard-above stages affected s w.1 f k (rw (other, miss) at e)
    ]
  ]
