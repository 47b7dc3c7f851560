-- ===== src/Aggregate/Groups.antt =====
-- external_aggregate.go: the groups of aggregatePairs against the values of each key.
use mathlib.Core.List.{foldl}
use go_spark.Prelude.{
  ℕ, ◌≤◌, ◌≡◌, refl, ap, sym, subst, ◌∙◌, Bool, true, false, inl, inr, List, [], ◌∷◌, arith, leb,
  if◌then◌else◌, select, All, Bool-cases, length,
}
use go_spark.Prelude.Maps.{Eq}
use go_spark.Prelude.Results.{ok, ◌>>◌}
use go_spark.Order.{WeakOrder, IsSorted, sort_stable}
use go_spark.Order.Stable.{sort_stable-IsSorted}
use go_spark.ExternalSort.{Budget, external_sort}
use go_spark.ExternalSort.Correct.{external_sort_lem}
use go_spark.RangeSort.SortByKey.{by_key-WeakOrder, Fits, Fits-check_sizes}
use go_spark.Aggregate.{group_from, group, key_less, group_sorted, aggregate_pairs}
use go_spark.Aggregate.Records.{records_of, records_of-above, has_key, select-sort_stable_apart}

module _ {ℓ κ μ} {K : Type ℓ} {V : Type κ} {C : Type μ} ⦃e : Eq K⦄ (create : V → C)
    (merge : C → V → C) where
  abbrev pub merge_record : C → K × V → C
  merge_record c r = merge c r.1

  -- The pair that a key yields: none without a record, and the combiner of its values in their order.
  abbrev pub combined : K → List (K × V) → List (K × C)
  combined k [] = []
  combined k (r ∷ rs) = (k, foldl merge_record (create r.1) rs) ∷ []

  module _ (size : C → ℕ) (limit : ℕ) where
    -- Each combiner of the values of a key fits the limit, from `acc` on, or from the first value on.
    abbrev pub FitsFrom : C → List (K × V) → Type 0
    FitsFrom acc [] = size acc ≤ limit
    FitsFrom acc (r ∷ rs) = (size acc ≤ limit) × FitsFrom (merge_record acc r) rs

    abbrev pub FitsAll : List (K × V) → Type 0
    FitsAll [] = Unit
    FitsAll (r ∷ rs) = FitsFrom (create r.1) rs

  module _ (less : K → K → Bool) (o : WeakOrder less)
      (tie : (a b : K) → less a b ≡ false → less b a ≡ false → a ≡ b) where
    -- The pair of a key after a group from `k` on with the combiner `acc`.
    abbrev from_group : K → C → K → List (K × V) → List (K × C)
    from_group k acc j l =
        if e.beq k j
        then (j, foldl merge_record acc (records_of j l)) ∷ []
        else combined j (records_of j l)

    module _ (size : C → ℕ) (limit : ℕ) where
      FitsFrom-allowed :
          (acc : C) (rs : List (K × V)) → FitsFrom size limit acc rs → leb (size acc) limit ≡ true
      FitsFrom-allowed acc [] h = ground (arith, h)
      FitsFrom-allowed acc (r ∷ rs) h = ground (arith, h.0)

      -- The combiners of a key in a group from `k` on with the combiner `acc`.
      abbrev GroupFits : K → C → List (K × V) → K → Type 0
      GroupFits k acc l j =
          if e.beq k j
          then FitsFrom size limit acc (records_of j l)
          else FitsAll size limit (records_of j l)

      abbrev Groups : K → C → List (K × V) → Type (ℓ ⊔ μ)
      Groups k acc l =
          (out : List (K × C)) × (group_from create merge size limit k acc l ≡ ok out)
          × ((j : K) → select (λ r. e.beq r.0 j) out ≡ from_group k acc j l)

      other_group :
          (k i j : K) (acc : C) (v : V) (l : List (K × V)) (out : List (K × C))
          → less i k ≡ false
          → All (λ r. less r.0 i ≡ false) l
          → e.beq i k ≡ false
          → select (λ r. e.beq r.0 j) out ≡ from_group i (create v) j l
          → select (λ r. e.beq r.0 j) ((k, acc) ∷ out) ≡ from_group k acc j ((i, v) ∷ l)
      other_group k i j acc v l out le above other rest = elim (Bool-cases (e.beq k j)) [
        | inr miss ↦ rw miss (rest ∙ ground arith)
        | inl hit ↦
            let k_j : k ≡ j = ground (arith, e.beq_iff k j) in
            let ne : e.beq i j ≡ false = subst (λ m. e.beq i m ≡ false) k_j other in
            let none_left : records_of j l ≡ [] =
              records_of-above less tie i j l above (subst (λ m. less i m ≡ false) k_j le) ne in
            ground (arith, hit, rest, ne, none_left, k_j)
      ]

      GroupFits-hit :
          (k j : K) (acc : C) (l : List (K × V))
          → e.beq k j ≡ true
          → GroupFits k acc l j
          → FitsFrom size limit acc (records_of j l)
      GroupFits-hit k j acc l hit h =
          subst
            (λ b.
              if b
              then FitsFrom size limit acc (records_of j l)
              else FitsAll size limit (records_of j l))
            hit h

      GroupFits-miss :
          (k j : K) (acc : C) (l : List (K × V))
          → e.beq k j ≡ false
          → GroupFits k acc l j
          → FitsAll size limit (records_of j l)
      GroupFits-miss k j acc l miss h =
          subst
            (λ b.
              if b
              then FitsFrom size limit acc (records_of j l)
              else FitsAll size limit (records_of j l))
            miss h

      GroupFits-same :
          (k i j : K) (acc : C) (v : V) (l : List (K × V))
          → i ≡ k
          → GroupFits k acc ((i, v) ∷ l) j
          → GroupFits k (merge acc v) l j
      GroupFits-same k i j acc v l i_k h = elim (Bool-cases (e.beq k j)) [
        | inl hit ↦
            let hit_i : e.beq i j ≡ true = subst (λ m. e.beq m j ≡ true) (sym i_k) hit in
            rw hit
              (subst
                (λ b.
                  FitsFrom size limit acc (if b then (i, v) ∷ records_of j l else records_of j l))
                hit_i (GroupFits-hit k j acc ((i, v) ∷ l) hit h)).1
        | inr miss ↦
            let miss_i : e.beq i j ≡ false = subst (λ m. e.beq m j ≡ false) (sym i_k) miss in
            rw miss (
              subst
                (λ b. FitsAll size limit (if b then (i, v) ∷ records_of j l else records_of j l))
                miss_i (GroupFits-miss k j acc ((i, v) ∷ l) miss h))
      ]

      -- The combiners of another key, of records that do not have the key of the group.
      GroupFits-start :
          (i j : K) (v : V) (l : List (K × V))
          → FitsAll size limit (records_of j ((i, v) ∷ l))
          → GroupFits i (create v) l j
      GroupFits-start i j v l h = elim (Bool-cases (e.beq i j)) [
        | inl hit ↦ rw hit (
            subst (λ b. FitsAll size limit (if b then (i, v) ∷ records_of j l else records_of j l))
              hit h)
        | inr miss ↦ rw miss (
            subst (λ b. FitsAll size limit (if b then (i, v) ∷ records_of j l else records_of j l))
              miss h)
      ]

      GroupFits-other :
          (k i j : K) (acc : C) (v : V) (l : List (K × V))
          → less i k ≡ false
          → All (λ r. less r.0 i ≡ false) l
          → e.beq i k ≡ false
          → GroupFits k acc ((i, v) ∷ l) j
          → GroupFits i (create v) l j
      GroupFits-other k i j acc v l le above other h = elim (Bool-cases (e.beq k j)) [
        | inr miss ↦ GroupFits-start i j v l (GroupFits-miss k j acc ((i, v) ∷ l) miss h)
        | inl hit ↦
            let k_j : k ≡ j = ground (arith, hit, e.beq_iff k j) in
            let ne : e.beq i j ≡ false = subst (λ m. e.beq i m ≡ false) k_j other in
            let none_left : records_of j l ≡ [] =
              records_of-above less tie i j l above (subst (λ m. less i m ≡ false) k_j le) ne in
            rw (ne, none_left) tt
      ]

      GroupFits-allowed :
          (k : K) (acc : C) (l : List (K × V)) → GroupFits k acc l k → leb (size acc) limit ≡ true
      GroupFits-allowed k acc l h =
          FitsFrom-allowed acc (records_of k l) (GroupFits-hit k k acc l ((e.beq_iff k k).1 refl) h)

      group_from-Groups :
          (k : K) (acc : C) (l : List (K × V))
          → All (λ r. less r.0 k ≡ false) l
          → IsSorted (key_less less) l
          → ((j : K) → GroupFits k acc l j)
          → Groups k acc l
      unfolding group_from
      group_from-Groups k acc [] above sorted fits =
          let allowed = GroupFits-allowed k acc [] (fits k) in
          ((k, acc) ∷ [], rw allowed refl, λ j. ground (arith, e.beq_iff k j))
      group_from-Groups k acc ((i, v) ∷ l) above sorted fits =
          let allowed = GroupFits-allowed k acc ((i, v) ∷ l) (fits k) in
          elim (Bool-cases (e.beq i k)) [
            | inl same ↦
                let i_k : i ≡ k = ground (arith, e.beq_iff i k) in
                let (out, eq, groups) =
                  group_from-Groups k (merge acc v) l above.1 sorted.1
                    (λ j. GroupFits-same k i j acc v l i_k (fits j)) in
                (
                  out,
                  rw (allowed, same) eq,
                  λ j. groups j ∙ ground (arith, e.beq_iff i j, e.beq_iff k j, i_k),
                )
            | inr other ↦
                let (out, eq, groups) =
                  group_from-Groups i (create v) l sorted.0 sorted.1
                    (λ j. GroupFits-other k i j acc v l above.0 sorted.0 other (fits j)) in
                (
                  (k, acc) ∷ out,
                  rw (allowed, other, eq) refl,
                  λ j. other_group k i j acc v l out above.0 sorted.0 other (groups j),
                )
          ]

      group-Groups :
          (l : List (K × V))
          → IsSorted (key_less less) l
          → ((j : K) → FitsAll size limit (records_of j l))
          → (out : List (K × C)) × (group create merge size limit l ≡ ok out)
            × ((j : K) → select (λ r. e.beq r.0 j) out ≡ combined j (records_of j l))
      unfolding group
      group-Groups [] sorted fits = ([], refl, λ j. refl)
      group-Groups ((k, v) ∷ l) sorted fits =
          let (out, eq, groups) =
            group_from-Groups k (create v) l sorted.0 sorted.1
              (λ j. GroupFits-start k j v l (fits j)) in
          (out, eq, λ j. groups j ∙ ground arith)

      same_key :
          (x y : K × V) (j : K)
          → has_key j x ≡ true
          → has_key j y ≡ true
          → key_less less x y ≡ false
      same_key x y j hx hy =
          let x_y : x.0 ≡ y.0 = ground (arith, e.beq_iff x.0 j, e.beq_iff y.0 j) in
          subst (λ m. less x.0 m ≡ false) x_y (o.irrefl x.0)

      -- By a weak order of tokens whose ties are equal keys, if each record fits the budget, and
      -- each combiner of the first values of a key of the stream the limit, aggregatePairs yields,
      -- for each key of the stream, one pair, which combines the values of the key in their order,
      -- and no other pair.
      pub aggregate_pairs_lem :
          (record_size : K × V → ℕ) (b : Budget) (stream : List (K × V))
          → Fits less o (λ (r : K × V). r.0) record_size b stream
          → ((j : K) → FitsAll size limit (records_of j stream))
          → (out : List (K × C)) × (aggregate_pairs create merge size limit less record_size b
                stream
              ≡ ok out)
            × ((j : K) → select (λ r. e.beq r.0 j) out ≡ combined j (records_of j stream))
      unfolding aggregate_pairs
      aggregate_pairs_lem record_size b stream f fits =
          let order : WeakOrder (key_less {V = V} less) =
            by_key-WeakOrder less o (λ (r : K × V). r.0) in
          let sorted = sort_stable (key_less less) stream in
          let sorts : external_sort (key_less less) record_size b stream
              ≡ ok (sorted, length stream) =
            external_sort_lem (key_less less) order record_size b stream
            ∙ ap (λ m. m >> ok (sorted, length stream))
                (Fits-check_sizes less o (λ (r : K × V). r.0) record_size b stream f) in
          let in_order : (j : K) → records_of j sorted ≡ records_of j stream = λ j.
            select-sort_stable_apart (key_less less) (has_key j) (λ x y. same_key x y j) stream in
          let (out, eq, groups) =
            group-Groups sorted (sort_stable-IsSorted (key_less less) order stream)
              (λ j. subst (FitsAll size limit) (sym (in_order j)) (fits j)) in
          (
            out,
            ap (group_sorted create merge size limit) sorts ∙ eq,
            λ j. groups j ∙ ap (combined j) (in_order j),
          )
