-- ===== src/Aggregate/Records.antt =====
-- external_aggregate.go: the records of a key in a stream that is sorted by the tokens of keys.
use go_spark.Prelude.{
  ◌≡◌, refl, ap, ◌∙◌, Bool, true, false, inl, inr, List, [], ◌∷◌, arith, if◌then◌else◌, select, All,
  Bool-cases,
}
use go_spark.Prelude.Maps.{Eq}
use go_spark.Order.{insert, sort_stable}

module _ {ℓ} {A : Type ℓ} (less : A → A → Bool) (p : A → Bool)
    (apart : (x y : A) → p x ≡ true → p y ≡ true → less x y ≡ false) where
  select-insert_apart : (x : A) (l : List A) → select p (insert less x l) ≡ select p (x ∷ l)
  unfolding insert
  select-insert_apart x [] = refl
  select-insert_apart x (y ∷ ys) = elim (Bool-cases (less y x)) [
    | inl f ↦ rw (f, insert) (ground (arith, select-insert_apart x ys, apart y x))
    | inr f ↦ rw (f, insert) refl
  ]

  -- Sorting keeps the order of items none of which is less than another.
  pub select-sort_stable_apart : (l : List A) → select p (sort_stable less l) ≡ select p l
  unfolding sort_stable
  select-sort_stable_apart [] = refl
  select-sort_stable_apart (x ∷ xs) =
      select-insert_apart x (sort_stable less xs)
      ∙ ap (λ (r : List A). if p x then x ∷ r else r) (select-sort_stable_apart xs)

module _ {ℓ κ} {K : Type ℓ} {V : Type κ} ⦃e : Eq K⦄ where
  abbrev pub has_key : K → K × V → Bool
  has_key k r = e.beq r.0 k

  -- The records of a key, in their order.
  abbrev pub records_of : K → List (K × V) → List (K × V)
  records_of k = select (has_key k)

module _ {ℓ κ} {K : Type ℓ} {V : Type κ} ⦃e : Eq K⦄ (less : K → K → Bool)
    (tie : (a b : K) → less a b ≡ false → less b a ≡ false → a ≡ b) where
  -- A key below all that are left has no record.
  pub records_of-above :
      (i k : K) (l : List (K × V))
      → All (λ r. less r.0 i ≡ false) l
      → less i k ≡ false
      → e.beq i k ≡ false
      → records_of k l ≡ []
  records_of-above i k [] above le ne = refl
  records_of-above i k ((j, v) ∷ l) above le ne = elim (Bool-cases (e.beq j k)) [
    | inr other ↦ rw other (records_of-above i k l above.1 le ne)
    | inl same ↦
        absurd (ground (arith, e.beq_iff j k, e.beq_iff i k, tie i k le, above.0, same, ne))
  ]
