-- ===== src/Planner/Ordered.antt =====
-- scheduler.go: orderedStages and stageByID.
use go_spark.Prelude.{
  ℕ, zero, suc, ◌<◌, ◌≡◌, refl, sym, subst, ◌∙◌, Bool, true, false, ◌&&◌, Option, none, some, List,
  [], ◌∷◌, ◌++◌, arith, ◌==◌, ltb, if◌then◌else◌, length, All, append-nil, append_assoc, All-imp,
}
use go_spark.Planner.{Stage, contains}
use go_spark.Planner.Stages.{Numbered, IsWaiting}

unfoldable pub stage_by_id : ℕ → List Stage → Option Stage
stage_by_id id [] = none
stage_by_id id (s ∷ stages) = if s.id == id then some s else stage_by_id id stages

-- The variables of orderedStages.
pub record Ordering : Type 0 where
  pub done : List ℕ
  pub out : List Stage
  pub progress : Bool

abbrev pub ready : List ℕ → List ℕ → Bool
ready done [] = true
ready done (p ∷ parents) = contains p done && ready done parents

-- One pass over the stages.
pub order_pass : List Stage → Ordering → Ordering
order_pass [] o = o
order_pass (s ∷ stages) o =
    let taken =
      order_pass stages (record { done = s.id ∷ o.done; out = o.out ++ s ∷ []; progress = true }) in
    let left = order_pass stages o in
    if contains s.id o.done then left else if ready o.done s.parents then taken else left

-- The outer loop: a pass that another follows takes at least one stage, so that a pass for each stage is enough.
pub order_loop : ℕ → List Stage → Ordering → List Stage
unfolding order_pass
order_loop zero stages o = o.out
order_loop (suc n) stages o =
    let o' = order_pass stages (record o { progress = false }) in
    let again = order_loop n stages o' in
    if ltb (length o.out) (length stages) then if o'.progress then again else o'.out else o.out

unfoldable pub ordered_stages : List Stage → List Stage
unfolding order_loop
ordered_stages stages =
    order_loop (length stages) stages (record { done = []; out = []; progress = false })

-- The stages that are done are those before `i`.
abbrev DoneBefore : ℕ → List ℕ → Type 0
DoneBefore i done = (k : ℕ) → contains k done ≡ ltb k i

DoneBefore-suc : (i : ℕ) (done : List ℕ) → DoneBefore i done → DoneBefore (suc i) (i ∷ done)
DoneBefore-suc i done d k = ground (arith, d k)

ready-DoneBefore :
    (i : ℕ) (done parents : List ℕ)
    → DoneBefore i done
    → All (λ q. q < i) parents
    → ready done parents ≡ true
ready-DoneBefore i done [] d a = refl
ready-DoneBefore i done (p ∷ parents) d a =
    let before : p < i = a.0 in ground (arith, d p, before, ready-DoneBefore i done parents d a.1)

abbrev pub Before : Stage → Type 0
Before s = All (λ q. q < s.id) s.parents

order_pass-out :
    (i : ℕ) (stages : List Stage) (o : Ordering)
    → Numbered i stages
    → All Before stages
    → DoneBefore i o.done
    → (order_pass stages o).out ≡ o.out ++ stages
unfolding order_pass
order_pass-out i [] o h w d = sym (append-nil o.out)
order_pass-out i (s ∷ stages) o h w d =
    let id : s.id ≡ i = h.0 in
    let new : contains s.id o.done ≡ false = ground (arith, d s.id, id) in
    let waits : ready o.done s.parents ≡ true =
      ready-DoneBefore s.id o.done s.parents (subst (λ n. DoneBefore n o.done) (sym id) d) w.0 in
    rw (new, waits)
      (order_pass-out (suc i) stages
          (record { done = s.id ∷ o.done; out = o.out ++ s ∷ []; progress = true }) h.1 w.1
          (subst (λ n. DoneBefore (suc i) (n ∷ o.done)) (sym id) (DoneBefore-suc i o.done d))
        ∙ append_assoc o.out (s ∷ []) stages)

order_pass-progress :
    (stages : List Stage) (o : Ordering) → o.progress ≡ true → (order_pass stages o).progress ≡ true
unfolding order_pass
order_pass-progress [] o e = e
order_pass-progress (s ∷ stages) o e = ground (
  arith,
  order_pass-progress stages o e,
  order_pass-progress stages
      (record { done = s.id ∷ o.done; out = o.out ++ s ∷ []; progress = true }) refl,
)

order_loop-done :
    (n : ℕ) (stages : List Stage) (o : Ordering) → o.out ≡ stages → order_loop n stages o ≡ stages
unfolding order_loop
order_loop-done zero stages o e = e
order_loop-done (suc n) stages o e =
    let full : ltb (length o.out) (length stages) ≡ false = rw e (ground arith) in rw full e

first_pass :
    (s : Stage) (stages : List Stage)
    → Numbered 0 (s ∷ stages)
    → All Before (s ∷ stages)
    → (order_pass (s ∷ stages) (record { done = []; out = []; progress = false })).progress ≡ true
unfolding order_pass
first_pass s stages h before =
    let waits : ready [] s.parents ≡ true =
      ready-DoneBefore 0 [] s.parents (λ k. ground arith)
        (subst (λ n. All (λ q. q < n) s.parents) h.0 before.0) in
    rw waits (order_pass-progress stages _ refl)

order_loop-one :
    (n : ℕ) (stages : List Stage) (o : Ordering)
    → ltb (length o.out) (length stages) ≡ true
    → (order_pass stages (record o { progress = false })).out ≡ stages
    → (order_pass stages (record o { progress = false })).progress ≡ true
    → order_loop (suc n) stages o ≡ stages
unfolding order_loop
order_loop-one n stages o less out progress = ground (
  arith,
  less,
  progress,
  order_loop-done n stages (order_pass stages (record o { progress = false })) out,
)

-- orderedStages gives all stages, in their own order, if they are numbered by their places and wait
-- for earlier map stages only.
pub ordered_stages-Numbered :
    (stages : List Stage)
    → Numbered 0 stages
    → All (IsWaiting stages) stages
    → ordered_stages stages ≡ stages
unfolding ordered_stages
ordered_stages-Numbered [] h w =
    order_loop-done 0 [] (record { done = []; out = []; progress = false }) refl
ordered_stages-Numbered (s ∷ stages) h w =
    let before =
      All-imp (IsWaiting (s ∷ stages)) Before (s ∷ stages)
        (λ x a. All-imp _ _ x.parents (λ q b. b.0) a) w in
    let nothing : Ordering = record { done = []; out = []; progress = false } in
    order_loop-one (length stages) (s ∷ stages) nothing (ground arith)
      (order_pass-out 0 (s ∷ stages) nothing h before (λ k. ground arith))
      (first_pass s stages h before)
