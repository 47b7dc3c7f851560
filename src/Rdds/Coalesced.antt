-- ===== src/Rdds/Coalesced.antt =====
-- rdd_transformations.go: Coalesce against Collect.
use native.Mathlib.Nat.{mod-lt}
use mathlib.Core.List.{Perm, perm_append_comm}
use mathlib.Core.List.Perm
use go_spark.Prelude.{
  ◌==◌, false, some, refl, ℕ, zero, suc, ◌+◌, ◌%◌, ◌<◌, ◌≡◌, refl, subst, sym, ◌∙◌, inl, inr, List,
  [], ◌∷◌, ◌++◌, arith, leb, length, get_or, set, replicate, flatten, Bool-cases, append_assoc,
  append-nil, length-set, length-replicate,
}
use go_spark.Rdds.{Partitions, coalesce_loop, coalesce, collect}

module _ {ℓ} {T : Type ℓ} where
  swap-append : (a b c : List T) → Perm ((a ++ b) ++ c) ((a ++ c) ++ b)
  swap-append a b c =
      subst (λ l. Perm l ((a ++ c) ++ b)) (sym (append_assoc a b c))
        (subst (λ l. Perm (a ++ (b ++ c)) l) (sym (append_assoc a c b))
          (Perm.append_left a (perm_append_comm b c)))

  -- a list that is put at the end of one partition is put at the end
  flatten-set :
      (out : Partitions T) (k : ℕ) (p : List T)
      → k < length out
      → Perm (flatten (set out k (get_or out k [] ++ p))) (flatten out ++ p)
  unfolding flatten
  flatten-set [] k p lt = absurd (omega arith)
  flatten-set (q ∷ out) zero p lt = swap-append q p (flatten out)
  flatten-set (q ∷ out) (suc k) p lt =
      subst (λ l. Perm (q ++ flatten (set out k (get_or out k [] ++ p))) l)
        (sym (append_assoc q (flatten out) p))
        (Perm.append_left q (flatten-set out k p (omega arith)))

  coalesce_loop-perm :
      (n i : ℕ) (parent out : Partitions T)
      → 0 < n
      → length out ≡ n
      → Perm (flatten (coalesce_loop n i parent out)) (flatten out ++ flatten parent)
  unfolding coalesce_loop flatten
  coalesce_loop-perm n i [] out pos len =
      subst (λ l. Perm (flatten out) l) (sym (append-nil (flatten out))) Perm.rfl
  coalesce_loop-perm n i (p ∷ parent) out pos len =
      let k = i % n in
      let inside : k < n = mod-lt i pos in
      let step =
        coalesce_loop-perm n (i + 1) parent (set out k (get_or out k [] ++ p)) pos
          (length-set out k (get_or out k [] ++ p) ∙ len) in
      Perm.trans step (
        subst (λ l. Perm (flatten (set out k (get_or out k [] ++ p)) ++ flatten parent) l)
          (append_assoc (flatten out) p (flatten parent))
          (Perm.append_right (flatten parent) (flatten-set out k p (omega arith))))

  flatten-replicate : (n : ℕ) → flatten {A = T} (replicate n []) ≡ []
  unfolding flatten
  flatten-replicate zero = refl
  flatten-replicate (suc n) = flatten-replicate n

  -- Coalescing into at least one partition does not panic, and the result has the records of the
  -- parent, each as often.
  pub coalesce-perm :
      (n : ℕ) (parent : Partitions T)
      → 0 < n
      → (out : Partitions T) × (coalesce n parent ≡ some out) × Perm (collect out) (collect parent)
  unfolding coalesce collect
  coalesce-perm n parent pos = elim (Bool-cases (leb (length parent) n)) [
    | inl few ↦ (parent, rw few refl, Perm.rfl)
    | inr many ↦
        let some_parts : (n == 0) ≡ false = ground arith in
        (
          coalesce_loop n 0 parent (replicate n []),
          rw (many, some_parts) refl,
          subst
              (λ l.
                Perm (flatten (coalesce_loop n 0 parent (replicate n []))) (l ++ flatten parent))
              (flatten-replicate n)
              (coalesce_loop-perm n 0 parent (replicate n []) pos (length-replicate n [])),
        )
  ]
