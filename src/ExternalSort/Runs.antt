-- ===== src/ExternalSort/Runs.antt =====
-- external_sort.go: merges of sorted runs, and what the catalogue `levels` holds.
use go_spark.Prelude.{
  ◌≡◌, refl, sym, ap, ◌∙◌, Bool, Option, none, some, List, [], ◌∷◌, ◌++◌, arith, append_assoc,
}
use go_spark.Order.{WeakOrder, insert, sort_stable}
use go_spark.ExternalSort.{merge, push, compact, collapse, run_or_empty}

module _ {ℓ} {A : Type ℓ} (less : A → A → Bool) where
  merge-nil_left : (r : List A) → merge less [] r ≡ r
  unfolding merge
  merge-nil_left [] = refl
  merge-nil_left (b ∷ r) = ap (◌∷◌ b) (merge-nil_left r)

  merge-nil_right : (l : List A) → merge less l [] ≡ l
  unfolding merge
  merge-nil_right [] = refl
  merge-nil_right (a ∷ l) = ap (◌∷◌ a) (merge-nil_right l)

  module _ (o : WeakOrder less) where
    merge-insert :
        (x : A) (l r : List A) → merge less (insert less x l) r ≡ insert less x (merge less l r)
    unfolding merge insert
    merge-insert x [] [] = refl
    merge-insert x [] (z ∷ r) = ground (arith, merge-insert x [] r, merge-nil_left r)
    merge-insert x (y ∷ l) [] =
        merge-nil_right (insert less x (y ∷ l)) ∙ ap (insert less x) (sym (merge-nil_right (y ∷ l)))
    merge-insert x (y ∷ l) (z ∷ r) =
        ground (
          arith,
          merge-insert x l (z ∷ r),
          merge-insert x (y ∷ l) r,
          o.trans z y x,
          o.negtrans z y x,
        )

    -- Merging the sorted halves sorts the whole, ties from the left first.
    pub merge-sort_stable :
        (l r : List A)
        → merge less (sort_stable less l) (sort_stable less r) ≡ sort_stable less (l ++ r)
    unfolding sort_stable
    merge-sort_stable [] r = merge-nil_left (sort_stable less r)
    merge-sort_stable (x ∷ l) r =
        merge-insert x (sort_stable less l) (sort_stable less r)
        ∙ ap (insert less x) (merge-sort_stable l r)

    -- Level by level, from the highest on, the runs are the sorted segments of `xs`.
    abbrev pub Holds : List (Option (List A)) → List A → Type ℓ
    Holds [] xs = xs ≡ []
    Holds (none ∷ levels) xs = Holds levels xs
    Holds (some run ∷ levels) xs =
        (ys : List A) × (zs : List A) × (xs ≡ ys ++ zs)
        × Holds levels ys
        × (run ≡ sort_stable less zs)

    pub push-Holds :
        (levels : List (Option (List A))) (run xs zs : List A)
        → Holds levels xs
        → run ≡ sort_stable less zs
        → Holds (push less run levels) (xs ++ zs)
    unfolding push
    push-Holds [] run xs zs h e = ([], zs, ap (λ l. l ++ zs) h, refl, e)
    push-Holds (none ∷ levels) run xs zs h e = (xs, zs, refl, h, e)
    push-Holds (some old ∷ levels) run xs zs (ys, ws, split, h, sorted) e =
        rw (split, append_assoc ys ws zs)
          (push-Holds levels (merge less old run) ys (ws ++ zs) h
            (rw (sorted, e) (merge-sort_stable ws zs)))

    compact-run_or_empty :
        (final run : Option (List A))
        → run_or_empty (compact less final run) ≡ merge less (run_or_empty final) (run_or_empty run)
    unfolding compact
    compact-run_or_empty none none = rw (merge-nil_left [])
    compact-run_or_empty (some f) none = rw (merge-nil_right f)
    compact-run_or_empty none (some r) = rw (merge-nil_left r)
    compact-run_or_empty (some f) (some r) = refl

    -- The final loop merges the runs into the sorted whole.
    pub collapse-Holds :
        (levels : List (Option (List A))) (xs : List A)
        → Holds levels xs
        → run_or_empty (collapse less levels) ≡ sort_stable less xs
    unfolding collapse sort_stable
    collapse-Holds [] xs h = rw h
    collapse-Holds (none ∷ levels) xs h =
        compact-run_or_empty (collapse less levels) none
        ∙ merge-nil_right (run_or_empty (collapse less levels))
        ∙ collapse-Holds levels xs h
    collapse-Holds (some run ∷ levels) xs (ys, zs, split, h, sorted) =
        compact-run_or_empty (collapse less levels) (some run)
        ∙ rw (collapse-Holds levels ys h, sorted, split) (merge-sort_stable ys zs)
