-- ===== src/Prelude/Maps.antt =====
-- Go maps as association lists with one entry for each key; nothing depends on their order.
use go_spark.Prelude.Tests.{Bool-cases, if◌then◌else◌, ◌==◌, ==_iff}
use Prim.Native.Nat.{ℕ}
use mathlib.Core.Path.{◌≡◌, subst}
use mathlib.Core.Logic.{◌↔◌, inl, inr}
use mathlib.Core.Bool.{Bool, true, false, ◌&&◌, ◌||◌}
use mathlib.Core.Option.{Option, none, some}
use mathlib.Core.List.{List, [], ◌∷◌}
use native.Mathlib.Omega.{arith}

-- Keys that `==` compares.
pub record Eq {ℓ} (K : Type ℓ) : Type ℓ where
  pub beq : K → K → Bool
  pub beq_iff : (a b : K) → (beq a b ≡ true) ↔ (a ≡ b)

instance abbrev pub nat_eq : Eq ℕ
nat_eq = record { beq = λ a b. a == b; beq_iff = ==_iff }

abbrev pub pair_beq : ℕ × ℕ → ℕ × ℕ → Bool
pair_beq (a, b) (c, d) = a == c && b == d

pub pair_beq_iff : (a b : ℕ × ℕ) → (pair_beq a b ≡ true) ↔ (a ≡ b)
pair_beq_iff (a, b) (c, d) = ground arith

instance abbrev pub pair_eq : Eq (ℕ × ℕ)
pair_eq = record { beq = pair_beq; beq_iff = pair_beq_iff }

abbrev pub list_beq : List ℕ → List ℕ → Bool
list_beq [] [] = true
list_beq [] (y ∷ q) = false
list_beq (x ∷ p) [] = false
list_beq (x ∷ p) (y ∷ q) = x == y && list_beq p q

pub list_beq_iff : (p q : List ℕ) → (list_beq p q ≡ true) ↔ (p ≡ q)
list_beq_iff [] [] = ground arith
list_beq_iff [] (y ∷ q) = ground arith
list_beq_iff (x ∷ p) [] = ground arith
list_beq_iff (x ∷ p) (y ∷ q) = ground (arith, list_beq_iff p q)

instance abbrev pub list_eq : Eq (List ℕ)
list_eq = record { beq = list_beq; beq_iff = list_beq_iff }

module _ {ℓ κ} {K : Type ℓ} {V : Type κ} ⦃e : Eq K⦄ where
  abbrev pub lookup : K → List (K × V) → Option V
  lookup k [] = none
  lookup k ((j, v) ∷ m) = if e.beq j k then some v else lookup k m

  -- One entry for each key.
  abbrev pub OneEntry : List (K × V) → Type κ
  OneEntry [] = Unit
  OneEntry ((k, v) ∷ m) = (lookup k m ≡ none) × OneEntry m

  unfoldable pub delete : K → List (K × V) → List (K × V)
  delete k [] = []
  delete k ((j, v) ∷ m) = if e.beq j k then delete k m else (j, v) ∷ delete k m

  unfoldable pub assign : K → V → List (K × V) → List (K × V)
  unfolding delete
  assign k v m = (k, v) ∷ delete k m

  -- A deleted key is absent, and the others are as they were.
  pub lookup-delete :
      (j k : K) (m : List (K × V))
      → lookup j (delete k m) ≡ (if e.beq k j then none else lookup j m)
  unfolding delete
  lookup-delete j k [] = ground arith
  lookup-delete j k ((i, v) ∷ m) =
      ground (arith, lookup-delete j k m, e.beq_iff i k, e.beq_iff i j, e.beq_iff k j)

  -- An assigned key has its value, and the others are as they were.
  pub lookup-assign :
      (j k : K) (v : V) (m : List (K × V))
      → lookup j (assign k v m) ≡ (if e.beq k j then some v else lookup j m)
  unfolding assign
  lookup-assign j k v m = ground (arith, lookup-delete j k m)

  pub OneEntry-delete : (k : K) (m : List (K × V)) → OneEntry m → OneEntry (delete k m)
  unfolding delete
  OneEntry-delete k [] h = tt
  OneEntry-delete k ((j, v) ∷ m) h = elim (Bool-cases (e.beq j k)) [
    | inl hit ↦ rw hit (OneEntry-delete k m h.1)
    | inr miss ↦ rw miss (ground (arith, lookup-delete j k m, h.0), OneEntry-delete k m h.1)
  ]

  pub OneEntry-assign : (k : K) (v : V) (m : List (K × V)) → OneEntry m → OneEntry (assign k v m)
  unfolding assign
  OneEntry-assign k v m h =
      (ground (arith, lookup-delete k k m, e.beq_iff k k), OneEntry-delete k m h)

  -- A key that is absent is not one that is present.
  pub beq-absent :
      (k p : K) (v : V) (m : List (K × V))
      → lookup k m ≡ none
      → lookup p m ≡ some v
      → e.beq k p ≡ false
  beq-absent k p v m absent at = elim (Bool-cases (e.beq k p)) [
    | inr miss ↦ miss
    | inl hit ↦
        let same : k ≡ p = (e.beq_iff k p).0 hit in
        let gone : lookup p m ≡ none = subst (λ x. lookup x m ≡ none) same absent in cc
  ]

module _ {ℓ} {K : Type ℓ} ⦃e : Eq K⦄ where
  abbrev pub contains : K → List K → Bool
  contains k [] = false
  contains k (x ∷ xs) = e.beq x k || contains k xs

  unfoldable pub remove : K → List K → List K
  remove k [] = []
  remove k (x ∷ xs) = if e.beq x k then remove k xs else x ∷ remove k xs

  pub contains-remove :
      (j k : K) (l : List K) → contains j (remove k l) ≡ (if e.beq k j then false else contains j l)
  unfolding remove
  contains-remove j k [] = ground arith
  contains-remove j k (x ∷ xs) =
      ground (arith, contains-remove j k xs, e.beq_iff x k, e.beq_iff x j, e.beq_iff k j)
