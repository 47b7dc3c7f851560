-- ===== src/Order/Stable.antt =====
-- The laws of a stable sort by a weak order.
use mathlib.Core.List.{Perm}
use mathlib.Core.List.Perm
use go_spark.Prelude.{
  suc, length, ◌≡◌, refl, ap, ◌∙◌, Bool, true, false, not, ◌&&◌, inl, inr, List, [], ◌∷◌, arith,
  All, select, Bool-cases, if◌then◌else◌,
}
use go_spark.Order.{WeakOrder, insert, sort_stable, IsSorted}

module _ {ℓ} {A : Type ℓ} (less : A → A → Bool) where
  pub insert-perm : (x : A) (l : List A) → Perm (insert less x l) (x ∷ l)
  unfolding insert
  insert-perm x [] = Perm.rfl
  insert-perm x (y ∷ ys) = elim (Bool-cases (less y x)) [
    | inl e ↦ rw (e, insert) (Perm.trans (Perm.cons y (insert-perm x ys)) (Perm.swap x y ys))
    | inr e ↦ rw (e, insert) Perm.rfl
  ]

  -- Sorting loses and invents no record.
  pub sort_stable-perm : (l : List A) → Perm (sort_stable less l) l
  unfolding sort_stable
  sort_stable-perm [] = Perm.rfl
  sort_stable-perm (x ∷ xs) =
      Perm.trans (insert-perm x (sort_stable less xs)) (Perm.cons x (sort_stable-perm xs))

  All-insert {κ} : (P : A → Type κ) (x : A) (l : List A) → P x → All P l → All P (insert less x l)
  unfolding insert
  All-insert P x [] p h = (p, h)
  All-insert P x (y ∷ ys) p h = elim (Bool-cases (less y x)) [
    | inl e ↦ rw (e, insert) (h.0, All-insert P x ys p h.1)
    | inr e ↦ rw (e, insert) (p, h)
  ]

  pub All-sort_stable {κ} : (P : A → Type κ) (l : List A) → All P l → All P (sort_stable less l)
  unfolding sort_stable
  All-sort_stable P [] h = h
  All-sort_stable P (x ∷ xs) h = All-insert P x _ h.0 (All-sort_stable P xs h.1)

  length-insert : (x : A) (l : List A) → length (insert less x l) ≡ suc (length l)
  unfolding insert
  length-insert x [] = refl
  length-insert x (y ∷ ys) = ground (arith, length-insert x ys)

  pub length-sort_stable : (l : List A) → length (sort_stable less l) ≡ length l
  unfolding sort_stable
  length-sort_stable [] = refl
  length-sort_stable (x ∷ xs) =
      length-insert x (sort_stable less xs) ∙ ap suc (length-sort_stable xs)

  module _ (o : WeakOrder less) where
    -- above the head is above all of an ascending list
    IsSorted-above :
        (x y : A) (l : List A)
        → less y x ≡ false
        → All (λ z. less z y ≡ false) l
        → All (λ z. less z x ≡ false) l
    IsSorted-above x y [] h a = tt
    IsSorted-above x y (z ∷ l) h a = (o.negtrans z y x a.0 h, IsSorted-above x y l h a.1)

    pub less_asym : (a b : A) → less a b ≡ true → less b a ≡ false
    less_asym a b h = elim (Bool-cases (less b a)) [
      | inl e ↦ ground (arith, o.trans a b a h e, o.irrefl a)
      | inr e ↦ e
    ]

    insert-IsSorted : (x : A) (l : List A) → IsSorted less l → IsSorted less (insert less x l)
    unfolding insert
    insert-IsSorted x [] s = (tt, tt)
    insert-IsSorted x (y ∷ ys) s = elim (Bool-cases (less y x)) [
      | inl e ↦
          rw (e, insert)
            (
              All-insert (λ z. less z y ≡ false) x ys (less_asym y x e) s.0,
              insert-IsSorted x ys s.1,
            )
      | inr e ↦ rw (e, insert) ((e, IsSorted-above x y ys e s.0), s)
    ]

    -- Sorting puts the records in ascending order.
    pub sort_stable-IsSorted : (l : List A) → IsSorted less (sort_stable less l)
    unfolding sort_stable
    sort_stable-IsSorted [] = tt
    sort_stable-IsSorted (x ∷ xs) = insert-IsSorted x _ (sort_stable-IsSorted xs)

    -- Neither is less than the other.
    abbrev pub ties : A → A → Bool
    ties k x = not (less k x) && not (less x k)

    select-insert :
        (k x : A) (l : List A) → select (ties k) (insert less x l) ≡ select (ties k) (x ∷ l)
    unfolding insert
    select-insert k x [] = refl
    select-insert k x (y ∷ ys) = elim (Bool-cases (less y x)) [
      | inl e ↦ rw (e, insert) (ground (arith, select-insert k x ys, o.negtrans y k x))
      | inr e ↦ rw (e, insert)
    ]

    -- Records that tie keep the order that they had.
    pub select-sort_stable :
        (k : A) (l : List A) → select (ties k) (sort_stable less l) ≡ select (ties k) l
    unfolding sort_stable
    select-sort_stable k [] = refl
    select-sort_stable k (x ∷ xs) =
        select-insert k x (sort_stable less xs)
        ∙ ap (λ (r : List A). if ties k x then x ∷ r else r) (select-sort_stable k xs)
