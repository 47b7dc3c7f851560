-- ===== src/Planner/Stages.antt =====
-- planner.go: well-formed plans, and what keeps them so.
use go_spark.Prelude.{
  ℕ, zero, suc, ◌+◌, ◌<◌, ◌≡◌, refl, sym, ap, subst, ◌∙◌, inl, inr, some, List, [], ◌∷◌, ◌++◌,
  arith, length, get_elem?, All, All-append, Bool-cases, append_assoc, All-imp,
}
use go_spark.Planner.{shuffle_map, Stage, Planner, contains, unique_from, unique_ints}

-- The stages are numbered by their places, from `i` on.
abbrev pub Numbered : ℕ → List Stage → Type 0
Numbered i [] = Unit
Numbered i (s ∷ stages) = (s.id ≡ i) × Numbered (suc i) stages

-- `id` is the place of a map stage.
abbrev pub IsMapStage : List Stage → ℕ → Type 0
IsMapStage stages id = (s : Stage) × (get_elem? stages id ≡ some s) × (s.kind ≡ shuffle_map)

-- A stage waits for earlier map stages only.
abbrev pub IsWaiting : List Stage → Stage → Type 0
IsWaiting stages s = All (λ q. (q < s.id) × IsMapStage stages q) s.parents

pub record IsPlanned (p : Planner) : Type 0 where
  pub numbered : Numbered 0 p.stages
  pub next : p.next_id ≡ length p.stages
  pub waiting : All (IsWaiting p.stages) p.stages
  pub shuffles : All (λ (e : ℕ × ℕ). IsMapStage p.stages e.1) p.shuffle_stages

-- The stages of `p` are the first of `p'`.
abbrev pub Grows : Planner → Planner → Type 0
Grows p p' = (more : List Stage) × (p'.stages ≡ p.stages ++ more)

pub Grows-trans : (p q r : Planner) → Grows p q → Grows q r → Grows p r
Grows-trans p q r (m, e) (n, f) = (m ++ n, f ∙ ap (λ l. l ++ n) e ∙ append_assoc p.stages m n)

pub get_elem?-append :
    (l r : List Stage) (i : ℕ) (s : Stage) → get_elem? l i ≡ some s → get_elem? (l ++ r) i ≡ some s
get_elem?-append [] r i s e = cc
get_elem?-append (x ∷ l) r zero s e = e
get_elem?-append (x ∷ l) r (suc i) s e = get_elem?-append l r i s e

pub get_elem?-last :
    (l : List Stage) (i : ℕ) (s : Stage) → i ≡ length l → get_elem? (l ++ s ∷ []) i ≡ some s
get_elem?-last [] zero s e = refl
get_elem?-last [] (suc i) s e = absurd (omega arith)
get_elem?-last (x ∷ l) zero s e = absurd (omega arith)
get_elem?-last (x ∷ l) (suc i) s e = get_elem?-last l i s (omega arith)

pub IsMapStage-Grows :
    (p p' : Planner) (id : ℕ) → Grows p p' → IsMapStage p.stages id → IsMapStage p'.stages id
IsMapStage-Grows p p' id (more, e) (s, at, kind) =
    (s, subst (λ l. get_elem? l id ≡ some s) (sym e) (get_elem?-append p.stages more id s at), kind)

pub IsMapStages-Grows :
    (p p' : Planner) (ids : List ℕ)
    → Grows p p'
    → All (IsMapStage p.stages) ids
    → All (IsMapStage p'.stages) ids
IsMapStages-Grows p p' ids g a =
    All-imp (IsMapStage p.stages) (IsMapStage p'.stages) ids (λ id. IsMapStage-Grows p p' id g) a

Numbered-append :
    (i n : ℕ) (l : List Stage) (s : Stage)
    → Numbered i l
    → n ≡ i + length l
    → s.id ≡ n
    → Numbered i (l ++ s ∷ [])
Numbered-append i n [] s h e f = (omega arith, tt)
Numbered-append i n (x ∷ l) s h e f = (h.0, Numbered-append (suc i) n l s h.1 (omega arith) f)

All-unique_from : (P : ℕ → Type 0) (seen ids : List ℕ) → All P ids → All P (unique_from seen ids)
unfolding unique_from
All-unique_from P seen [] a = tt
All-unique_from P seen (id ∷ ids) a = elim (Bool-cases (contains id seen)) [
  | inl old ↦ rw old (All-unique_from P seen ids a.1)
  | inr new ↦ rw new (a.0, All-unique_from P (id ∷ seen) ids a.1)
]

-- uniqueInts keeps only numbers that it was given.
pub All-unique_ints : (P : ℕ → Type 0) (ids : List ℕ) → All P ids → All P (unique_ints ids)
unfolding unique_ints
All-unique_ints P ids a = All-unique_from P [] ids a

get_elem?-lt : (l : List Stage) (i : ℕ) (s : Stage) → get_elem? l i ≡ some s → i < length l
get_elem?-lt [] i s e = cc
get_elem?-lt (x ∷ l) zero s e = omega arith
get_elem?-lt (x ∷ l) (suc i) s e = omega (arith, get_elem?-lt l i s e)

pub IsMapStage-later :
    (l : List Stage) (s : Stage) (q : ℕ) → IsMapStage l q → IsMapStage (l ++ s ∷ []) q
IsMapStage-later l s q (t, at, kind) = (t, get_elem?-append l (s ∷ []) q t at, kind)

-- A stage that waits for planned map stages joins them as the last.
pub IsWaiting-with :
    (p : Planner) (s : Stage)
    → IsPlanned p
    → s.id ≡ p.next_id
    → All (IsMapStage p.stages) s.parents
    → Numbered 0 (p.stages ++ s ∷ []) × All (IsWaiting (p.stages ++ s ∷ [])) (p.stages ++ s ∷ [])
IsWaiting-with p s v e a = (
  Numbered-append 0 p.next_id p.stages s v.numbered (omega (arith, v.next)) e,
  All-append (IsWaiting (p.stages ++ s ∷ [])) p.stages (s ∷ [])
      (All-imp (IsWaiting p.stages) (IsWaiting (p.stages ++ s ∷ [])) p.stages
        (λ x.
          All-imp (λ q. (q < x.id) × IsMapStage p.stages q) _ x.parents
            (λ q (lt, m). (lt, IsMapStage-later p.stages s q m)))
        v.waiting)
      (
        All-imp (IsMapStage p.stages) (λ q. (q < s.id) × IsMapStage (p.stages ++ s ∷ []) q)
            s.parents
            (λ q (t, at, kind). (
              omega (arith, get_elem?-lt p.stages q t at, v.next),
              IsMapStage-later p.stages s q (t, at, kind),
            ))
            a,
        tt,
      ),
)
