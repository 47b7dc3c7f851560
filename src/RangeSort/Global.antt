-- ===== src/RangeSort/Global.antt =====
-- Sorting range by range against sorting the whole, by a partition that follows the order.
use go_spark.Prelude.{
  ℕ, zero, suc, ◌+◌, ◌<◌, ◌≤◌, ◌≡◌, refl, ap, ◌∙◌, sym, Bool, true, false, inl, inr, List, [], ◌∷◌,
  ◌++◌, arith, ◌==◌, All, All-append, select, Bool-cases,
}
use go_spark.Order.{WeakOrder, insert, sort_stable}
use go_spark.Order.Stable.{All-sort_stable, less_asym}

module _ {ℓ} {V : Type ℓ} (less : V → V → Bool) where
  insert-append_right :
      (x : V) (l r : List V)
      → All (λ y. less y x ≡ true) l
      → insert less x (l ++ r) ≡ l ++ insert less x r
  unfolding insert
  insert-append_right x [] r a = refl
  insert-append_right x (y ∷ l) r a = ground (arith, a.0, insert-append_right x l r a.1)

  insert-append_left :
      (x : V) (l r : List V)
      → All (λ y. less y x ≡ false) r
      → insert less x (l ++ r) ≡ insert less x l ++ r
  unfolding insert
  insert-append_left x [] [] a = refl
  insert-append_left x [] (y ∷ r) a = ground (arith, a.0)
  insert-append_left x (y ∷ l) r a = ground (arith, insert-append_left x l r a)

  -- the sorted ranges one after the other, `c` of them from `rid` on
  unfoldable pub ranges : (V → ℕ) → ℕ → ℕ → List V → List V
  ranges part zero rid records = []
  ranges part (suc c) rid records =
      sort_stable less (select (λ v. part v == rid) records) ++ ranges part c (rid + 1) records

  module _ (o : WeakOrder less) (part : V → ℕ)
      (mono : (x y : V) → less y x ≡ false → part x ≤ part y) where
    All-select :
        (rid low : ℕ) (records : List V)
        → low ≤ rid
        → All (λ v. low ≤ part v) (select (λ v. part v == rid) records)
    All-select rid low [] le = tt
    All-select rid low (v ∷ records) le = elim (Bool-cases (part v == rid)) [
      | inl own ↦ rw own (ground arith, All-select rid low records le)
      | inr other ↦ rw other (All-select rid low records le)
    ]

    ranges_above :
        (c rid low : ℕ) (records : List V)
        → low ≤ rid
        → All (λ v. low ≤ part v) (ranges part c rid records)
    unfolding ranges
    ranges_above zero rid low records le = tt
    ranges_above (suc c) rid low records le =
        All-append (λ v. low ≤ part v) _ _
          (All-sort_stable less (λ v. low ≤ part v) _ (All-select rid low records le))
          (ranges_above c (rid + 1) low records (omega arith))

    later_less :
        (x : V) (low : ℕ) (l : List V)
        → part x < low
        → All (λ v. low ≤ part v) l
        → All (λ y. less y x ≡ false) l
    later_less x low [] lt a = tt
    later_less x low (y ∷ l) lt a = (
      elim (Bool-cases (less y x)) [
        | inl e ↦ absurd (omega (arith, mono y x (less_asym less o y x e), a.0))
        | inr e ↦ e
      ],
      later_less x low l lt a.1,
    )

    earlier_less :
        (x : V) (rid : ℕ) (l : List V)
        → rid < part x
        → All (λ v. part v ≡ rid) l
        → All (λ y. less y x ≡ true) l
    earlier_less x rid [] lt a = tt
    earlier_less x rid (y ∷ l) lt a = (
      elim (Bool-cases (less y x)) [ inl e ↦ e | inr e ↦ absurd (omega (arith, mono x y e, a.0)) ],
      earlier_less x rid l lt a.1,
    )

    All-select_eq :
        (rid : ℕ) (records : List V) → All (λ v. part v ≡ rid) (select (λ v. part v == rid) records)
    All-select_eq rid [] = tt
    All-select_eq rid (v ∷ records) = elim (Bool-cases (part v == rid)) [
      | inl own ↦ rw own (ground arith, All-select_eq rid records)
      | inr other ↦ rw other (All-select_eq rid records)
    ]

    ranges_skip :
        (c rid : ℕ) (x : V) (records : List V)
        → part x < rid
        → ranges part c rid (x ∷ records) ≡ ranges part c rid records
    unfolding ranges
    ranges_skip zero rid x records lt = refl
    ranges_skip (suc c) rid x records lt =
        ground (arith, ranges_skip c (rid + 1) x records (omega arith))

    -- a new first record goes where a stable insertion puts it
    ranges-insert :
        (c rid : ℕ) (x : V) (records : List V)
        → rid ≤ part x
        → part x < rid + c
        → ranges part c rid (x ∷ records) ≡ insert less x (ranges part c rid records)
    unfolding ranges sort_stable
    ranges-insert zero rid x records le lt = absurd (omega arith)
    ranges-insert (suc c) rid x records le lt = elim (Bool-cases (part x == rid)) [
      | inl own ↦
          let here : part x ≡ rid = ground arith in
          rw (own, ranges_skip c (rid + 1) x records (omega arith))
            (sym (
              insert-append_left x _ _ (
                later_less x (rid + 1) _ (omega arith)
                  (ranges_above c (rid + 1) (rid + 1) records (omega arith)))))
      | inr other ↦
          let after : rid < part x = ground arith in
          rw (other, ranges-insert c (rid + 1) x records (omega arith) (omega arith))
            (sym (
              insert-append_right x _ _ (
                earlier_less x rid _ after
                  (All-sort_stable less (λ v. part v ≡ rid) _ (All-select_eq rid records)))))
    ]

    ranges-nil : (c rid : ℕ) → ranges part c rid [] ≡ []
    unfolding ranges sort_stable
    ranges-nil zero rid = refl
    ranges-nil (suc c) rid = ranges-nil c (rid + 1)

    -- Sorting range by range is sorting the whole.
    pub ranges-sort_stable :
        (c : ℕ) (records : List V)
        → ((v : V) → part v < c)
        → ranges part c 0 records ≡ sort_stable less records
    unfolding sort_stable
    ranges-sort_stable c [] lt = ranges-nil c 0
    ranges-sort_stable c (x ∷ records) lt =
        ranges-insert c 0 x records (omega arith) (omega (arith, lt x))
        ∙ ap (insert less x) (ranges-sort_stable c records lt)
