-- ===== src/Order.antt =====
-- Comparison functions (`less func(any, any) bool`) and what Go's `sort` package does with them.
-- `sort.SliceStable` of the standard library is modelled by its documented result.
pub mod Stable
use go_spark.Prelude.{◌≡◌, Bool, true, false, List, [], ◌∷◌, All}

-- What `sort` and the range partitioner ask of `less`: a strict weak order.
pub record WeakOrder {ℓ} {A : Type ℓ} (less : A → A → Bool) : Type ℓ where
  pub irrefl : (a : A) → less a a ≡ false
  pub trans : (a b c : A) → less a b ≡ true → less b c ≡ true → less a c ≡ true
  pub negtrans : (a b c : A) → less a b ≡ false → less b c ≡ false → less a c ≡ false

module _ {ℓ} {A : Type ℓ} (less : A → A → Bool) where
  -- `x` goes before the first record that is not less than it.
  unfoldable pub insert : A → List A → List A
  insert x [] = x ∷ []
  insert x (y ∷ ys) = elim (less y x) [ true ↦ y ∷ insert x ys | false ↦ x ∷ y ∷ ys ]

  -- sort.SliceStable: ascending, and equal records keep their order.
  unfoldable pub sort_stable : List A → List A
  unfolding insert
  sort_stable [] = []
  sort_stable (x ∷ xs) = insert x (sort_stable xs)

  -- No record is followed by a smaller one.
  abbrev pub IsSorted : List A → Type 0
  IsSorted [] = Unit
  IsSorted (x ∷ xs) = All (λ y. less y x ≡ false) xs × IsSorted xs
