-- ===== src/Joins/Groups.antt =====
-- external_aggregate.go: the groups of boundedGroups against the values of each key.
use go_spark.Prelude.{
  ℕ, suc, ◌+◌, ◌≤◌, ◌≡◌, refl, sym, ap, subst, ◌∙◌, Bool, Bool-cases, inl, inr, true, false, List,
  [], ◌∷◌, ◌++◌, append_assoc, append-nil, All-imp, arith, leb, if◌then◌else◌, map, select, All,
  length,
}
use go_spark.Prelude.Maps.{Eq}
use go_spark.Prelude.Results.{ok, ◌>>◌}
use go_spark.Order.{WeakOrder, IsSorted, sort_stable}
use go_spark.Order.Stable.{sort_stable-IsSorted, length-sort_stable}
use go_spark.ExternalSort.{Budget, external_sort}
use go_spark.ExternalSort.Correct.{external_sort_lem}
use go_spark.RangeSort.SortByKey.{by_key-WeakOrder, Fits, Fits-check_sizes}
use go_spark.Aggregate.{key_less}
use go_spark.Aggregate.Records.{has_key, records_of, records_of-above, select-sort_stable_apart}
use go_spark.Joins.{groups_from, groups, groups_of_sorted, bounded_groups}

-- Each key is less than those after it.
abbrev pub Ascending : {K V : Type 0} → (K → K → Bool) → List (K × V) → Type 0
Ascending less [] = Unit
Ascending less ((k, v) ∷ l) = All (λ r. less k r.0 ≡ true) l × Ascending less l

-- What boundedGroups counts for values.
abbrev pub total : {V : Type 0} → (V → ℕ) → List V → ℕ
total encoded [] = 0
total encoded (v ∷ vs) = encoded v + 32 + total encoded vs

module _ {K V : Type 0} ⦃e : Eq K⦄ where
  -- The values of a key, in their order.
  abbrev pub values_of : K → List (K × V) → List V
  values_of k l = map (λ r. r.1) (records_of k l)

  -- The group of a key: none without a value.
  abbrev pub grouped : K → List V → List (K × List V)
  grouped k [] = []
  grouped k (v ∷ vs) = (k, v ∷ vs) ∷ []

  -- The groups of a stream: in ascending order, one for each key that has a record, with the values of
  -- the key in their order.
  abbrev pub AreGroups : (K → K → Bool) → List (K × V) → List (K × List V) → Type 0
  AreGroups less stream out =
      Ascending less out
      × (length out ≤ length stream)
      × ((j : K) → select (λ r. e.beq r.0 j) out ≡ grouped j (values_of j stream))

  module _ (encoded : V → ℕ) (limit : ℕ) where
    module _ (less : K → K → Bool) (o : WeakOrder less)
        (tie : (a b : K) → less a b ≡ false → less b a ≡ false → a ≡ b) where
      -- The group of a key after one from `k` on, which has `values` so far.
      abbrev from_group : K → List V → K → List (K × V) → List (K × List V)
      from_group k values j l =
          if e.beq k j then (j, values ++ values_of j l) ∷ [] else grouped j (values_of j l)

      -- The size of a group does not pass the limit.
      abbrev Allowed : K → ℕ → List (K × V) → Type 0
      Allowed k size l =
          (size + total encoded (values_of k l) ≤ limit)
          × ((j : K) → total encoded (values_of j l) ≤ limit)

      abbrev Grouped : K → List V → ℕ → List (K × V) → Type 0
      Grouped k values size l =
          (out : List (K × List V)) × (groups_from encoded limit k values size l ≡ ok out)
          × Ascending less out
          × All (λ r. less r.0 k ≡ false) out
          × (length out ≤ suc (length l))
          × ((j : K) → select (λ r. e.beq r.0 j) out ≡ from_group k values j l)

      -- A record after one of another key is above it.
      above_other :
          (k i j : K)
          → less i k ≡ false
          → e.beq i k ≡ false
          → less j i ≡ false
          → (less k j ≡ true) × (less j k ≡ false)
      above_other k i j le other above = elim (Bool-cases (less k j)) [
        | inl lt ↦ (lt, o.negtrans j i k above le)
        | inr ge ↦
            absurd (ground (arith, o.negtrans k j i ge above, tie i k le, e.beq_iff i k, other))
      ]

      values_of-hit :
          (k i : K) (v : V) (l : List (K × V))
          → e.beq i k ≡ true
          → values_of k ((i, v) ∷ l) ≡ v ∷ values_of k l
      values_of-hit k i v l hit = ground (arith, hit)

      values_of-miss :
          (k i : K) (v : V) (l : List (K × V))
          → e.beq i k ≡ false
          → values_of k ((i, v) ∷ l) ≡ values_of k l
      values_of-miss k i v l miss = ground (arith, miss)

      from_group-same :
          (k i j : K) (values : List V) (v : V) (l : List (K × V))
          → e.beq i k ≡ true
          → from_group k (values ++ v ∷ []) j l ≡ from_group k values j ((i, v) ∷ l)
      from_group-same k i j values v l same =
          let i_k : e.beq k j ≡ e.beq i j = ap (λ m. e.beq m j) (sym ((e.beq_iff i k).0 same)) in
          elim (Bool-cases (e.beq i j)) [
            | inl hit ↦
                rw (i_k, hit) (ap (λ x. (j, x) ∷ []) (append_assoc values (v ∷ []) (values_of j l)))
            | inr miss ↦ rw (i_k, miss) refl
          ]

      from_group-other :
          (k i j : K) (values : List V) (v : V) (l : List (K × V)) (out : List (K × List V))
          → less i k ≡ false
          → All (λ r. less r.0 i ≡ false) l
          → e.beq i k ≡ false
          → select (λ r. e.beq r.0 j) out ≡ from_group i (v ∷ []) j l
          → select (λ r. e.beq r.0 j) ((k, values) ∷ out) ≡ from_group k values j ((i, v) ∷ l)
      from_group-other k i j values v l out le above other rest = elim (Bool-cases (e.beq k j)) [
        | inl hit ↦
            let k_j : k ≡ j = (e.beq_iff k j).0 hit in
            let miss : e.beq i j ≡ false = subst (λ m. e.beq i m ≡ false) k_j other in
            let left : records_of j l ≡ [] =
              records_of-above less tie i j l above (subst (λ m. less i m ≡ false) k_j le) miss in
            let nothing : values_of j ((i, v) ∷ l) ≡ [] =
              values_of-miss j i v l miss ∙ ap (map (λ r. r.1)) left in
            let empty : select (λ r. e.beq r.0 j) out ≡ [] =
              rest ∙ rw miss (ap (λ rs. grouped j (map (λ r. r.1) rs)) left) in
            rw (hit, empty, nothing, append-nil values) (ap (λ m. (m, values) ∷ []) k_j)
        | inr apart ↦ rw apart (rest ∙ ground arith)
      ]

      total-tail :
          (j i : K) (v : V) (l : List (K × V))
          → total encoded (values_of j l) ≤ total encoded (values_of j ((i, v) ∷ l))
      total-tail j i v l = elim (Bool-cases (e.beq i j)) [
        | inl hit ↦ rw (values_of-hit j i v l hit) (omega arith)
        | inr miss ↦ rw (values_of-miss j i v l miss) (omega arith)
      ]

      groups_from-Grouped :
          (k : K) (values : List V) (size : ℕ) (l : List (K × V))
          → All (λ r. less r.0 k ≡ false) l
          → IsSorted (key_less less) l
          → Allowed k size l
          → Grouped k values size l
      unfolding groups_from
      groups_from-Grouped k values size [] above sorted allowed = (
        (k, values) ∷ [],
        refl,
        (tt, tt),
        (o.irrefl k, tt),
        omega arith,
        λ j. ground (arith, e.beq_iff k j, append-nil values),
      )
      groups_from-Grouped k values size ((i, v) ∷ l) above sorted allowed =
          elim (Bool-cases (e.beq i k)) [
            | inl same ↦
                let i_k : i ≡ k = (e.beq_iff i k).0 same in
                let more : total encoded (values_of k ((i, v) ∷ l))
                    ≡ encoded v + 32 + total encoded (values_of k l) =
                  ap (total encoded) (values_of-hit k i v l same) in
                let fits : leb (size + (encoded v + 32)) limit ≡ true =
                  ground (arith, allowed.0, more) in
                let (out, eq, asc, below, count, of_keys) =
                  groups_from-Grouped k (values ++ v ∷ []) (size + (encoded v + 32)) l above.1
                    sorted.1
                    (
                      omega (arith, allowed.0, more),
                      λ j. omega (arith, allowed.1 j, total-tail j i v l),
                    ) in
                (
                  out,
                  rw (same, fits) eq,
                  asc,
                  below,
                  omega (arith, count),
                  λ j. of_keys j ∙ from_group-same k i j values v l same,
                )
            | inr other ↦
                let one : total encoded (values_of i ((i, v) ∷ l))
                    ≡ encoded v + 32 + total encoded (values_of i l) =
                  ap (total encoded) (values_of-hit i i v l ((e.beq_iff i i).1 refl)) in
                let fits : leb (0 + (encoded v + 32)) limit ≡ true =
                  ground (arith, allowed.1 i, one) in
                let (out, eq, asc, below, count, of_keys) =
                  groups_from-Grouped i (v ∷ []) (0 + (encoded v + 32)) l sorted.0 sorted.1 (
                    omega (arith, allowed.1 i, one),
                    λ j. omega (arith, allowed.1 j, total-tail j i v l),
                  ) in
                (
                  (k, values) ∷ out,
                  rw (other, fits, eq) refl,
                  (All-imp _ _ out (λ r h. (above_other k i r.0 above.0 other h).0) below, asc),
                  (
                    o.irrefl k,
                    All-imp _ _ out (λ r h. (above_other k i r.0 above.0 other h).1) below,
                  ),
                  omega (arith, count),
                  λ j. from_group-other k i j values v l out above.0 sorted.0 other (of_keys j),
                )
          ]

      groups-Grouped :
          (l : List (K × V))
          → IsSorted (key_less less) l
          → ((j : K) → total encoded (values_of j l) ≤ limit)
          → (out : List (K × List V)) × (groups encoded limit l ≡ ok out)
            × Ascending less out
            × (length out ≤ length l)
            × ((j : K) → select (λ r. e.beq r.0 j) out ≡ grouped j (values_of j l))
      unfolding groups
      groups-Grouped [] sorted allowed = ([], refl, tt, omega arith, λ j. refl)
      groups-Grouped ((k, v) ∷ l) sorted allowed =
          let one : total encoded (values_of k ((k, v) ∷ l))
              ≡ encoded v + 32 + total encoded (values_of k l) =
            ap (total encoded) (values_of-hit k k v l ((e.beq_iff k k).1 refl)) in
          let fits : leb (0 + (encoded v + 32)) limit ≡ true = ground (arith, allowed k, one) in
          let (out, eq, asc, below, count, of_keys) =
            groups_from-Grouped k (v ∷ []) (0 + (encoded v + 32)) l sorted.0 sorted.1
              (omega (arith, allowed k, one), λ j. omega (arith, allowed j, total-tail j k v l)) in
          (out, rw fits eq, asc, count, λ j. of_keys j ∙ ground arith)

      same_key :
          (x y : K × V) (j : K)
          → has_key j x ≡ true
          → has_key j y ≡ true
          → key_less less x y ≡ false
      same_key x y j hx hy =
          let x_y : x.0 ≡ y.0 = ground (arith, e.beq_iff x.0 j, e.beq_iff y.0 j) in
          subst (λ m. less x.0 m ≡ false) x_y (o.irrefl x.0)

      -- By a weak order of tokens whose ties are equal keys, if each record fits the budget and the
      -- values of each key the limit, boundedGroups yields the groups of the stream.
      pub bounded_groups-AreGroups :
          (record_size : K × V → ℕ) (b : Budget) (stream : List (K × V))
          → Fits less o (λ (r : K × V). r.0) record_size b stream
          → ((j : K) → total encoded (values_of j stream) ≤ limit)
          → (out : List (K × List V)) × (bounded_groups encoded limit less record_size b stream
              ≡ ok out)
            × AreGroups less stream out
      unfolding bounded_groups
      bounded_groups-AreGroups record_size b stream f allowed =
          let order : WeakOrder (key_less {V = V} less) =
            by_key-WeakOrder less o (λ (r : K × V). r.0) in
          let sorted = sort_stable (key_less less) stream in
          let sorts : external_sort (key_less less) record_size b stream
              ≡ ok (sorted, length stream) =
            external_sort_lem (key_less less) order record_size b stream
            ∙ ap (λ m. m >> ok (sorted, length stream))
                (Fits-check_sizes less o (λ (r : K × V). r.0) record_size b stream f) in
          let values : (j : K) → values_of j sorted ≡ values_of j stream = λ j.
            ap (map (λ r. r.1)) (
              select-sort_stable_apart (key_less less) (has_key j) (λ x y. same_key x y j)
                stream) in
          let (out, eq, asc, count, of_keys) =
            groups-Grouped sorted (sort_stable-IsSorted (key_less less) order stream)
              (λ j. subst (λ vs. total encoded vs ≤ limit) (sym (values j)) (allowed j)) in
          (
            out,
            ap (groups_of_sorted encoded limit) sorts ∙ eq,
            (
              asc,
              omega (arith, count, length-sort_stable (key_less less) stream),
              λ j. of_keys j ∙ ap (grouped j) (values j),
            ),
          )
