-- ===== src/Joins/Cogrouped.antt =====
-- pair_rdd.go: what the iterator of a cogroup yields of the groups of two RDDs.
use go_spark.Prelude.{
  ◌+◌, ◌≤◌, ◌≡◌, refl, sym, ap, ap₂, subst, ◌∙◌, Bool, Bool-cases, inl, inr, true, false, List, [],
  ◌∷◌, arith, select, All, All-imp, length,
}
use go_spark.Prelude.Maps.{Eq}
use go_spark.Order.{WeakOrder}
use go_spark.Iterator.Yields.{Yields, done, more}
use go_spark.Joins.{Cogroup, cogroup_next}
use go_spark.Joins.Groups.{Ascending, AreGroups, grouped, values_of}

module _ {K V W : Type 0} where
  -- The cogroup of a key, from the groups that the inputs have of it.
  abbrev together : K → List (K × List V) → List (K × List W) → List (Cogroup K V W)
  together j [] [] = []
  together j (a ∷ g1) [] = (j, (a.1, [])) ∷ []
  together j [] (b ∷ g2) = (j, ([], b.1)) ∷ []
  together j (a ∷ g1) (b ∷ g2) = (j, (a.1, b.1)) ∷ []

  -- And from the values: none without a value.
  abbrev pub cogrouped : K → List V → List W → List (Cogroup K V W)
  cogrouped j [] [] = []
  cogrouped j (v ∷ vs) ws = (j, (v ∷ vs, ws)) ∷ []
  cogrouped j [] (w ∷ ws) = (j, ([], w ∷ ws)) ∷ []

module _ {K V W : Type 0} ⦃e : Eq K⦄ where
  together-grouped :
      (j : K) (vs : List V) (ws : List W)
      → together j (grouped j vs) (grouped j ws) ≡ cogrouped j vs ws
  together-grouped j [] [] = refl
  together-grouped j (v ∷ vs) [] = refl
  together-grouped j [] (w ∷ ws) = refl
  together-grouped j (v ∷ vs) (w ∷ ws) = refl

module _ {K : Type 0} ⦃e : Eq K⦄ where
  -- What a list has of a key.
  abbrev pub at_key : {U : Type 0} → K → List (K × U) → List (K × U)
  at_key j l = select (λ r. e.beq r.0 j) l

  pub at_key-hit :
      {U : Type 0} (j : K) (r : K × U) (l : List (K × U))
      → e.beq r.0 j ≡ true
      → at_key j (r ∷ l) ≡ r ∷ at_key j l
  at_key-hit j r l hit = ground (arith, hit)

  pub at_key-miss :
      {U : Type 0} (j : K) (r : K × U) (l : List (K × U))
      → e.beq r.0 j ≡ false
      → at_key j (r ∷ l) ≡ at_key j l
  at_key-miss j r l miss = ground (arith, miss)

module _ {K : Type 0} ⦃e : Eq K⦄ (less : K → K → Bool) (o : WeakOrder less)
    (tie : (a b : K) → less a b ≡ false → less b a ≡ false → a ≡ b) where
  -- A key that is less than those of a list is not one of them.
  select-above :
      {U : Type 0} (k : K) (l : List (K × U)) → All (λ r. less k r.0 ≡ true) l → at_key k l ≡ []
  select-above k [] above = refl
  select-above k (r ∷ l) above = elim (Bool-cases (e.beq r.0 k)) [
    | inr miss ↦ rw miss (select-above k l above.1)
    | inl hit ↦
        let same : less k k ≡ true =
          subst (λ m. less k m ≡ true) ((e.beq_iff r.0 k).0 hit) above.0 in
        absurd (ground (arith, same, o.irrefl k))
  ]

  above_all :
      {U : Type 0} (a b : K) (l : List (K × U))
      → less a b ≡ true
      → All (λ r. less b r.0 ≡ true) l
      → All (λ r. less a r.0 ≡ true) l
  above_all a b l lt = All-imp _ _ l (λ r h. o.trans a b r.0 lt h)

  gone :
      {U : Type 0} (a : K × U) (j : K) {T : Type 0} (l : List (K × T))
      → e.beq a.0 j ≡ true
      → All (λ r. less a.0 r.0 ≡ true) l
      → at_key j l ≡ []
  gone a j l hit above =
      select-above j l (subst (λ m. All (λ r. less m r.0 ≡ true) l) ((e.beq_iff a.0 j).0 hit) above)

  module _ {V W : Type 0} where
    of_left :
        (a : K × List V) (g1 : List (K × List V)) (g2 : List (K × List W))
        (out : List (Cogroup K V W)) (j : K)
        → All (λ r. less a.0 r.0 ≡ true) g1
        → All (λ r. less a.0 r.0 ≡ true) g2
        → at_key j out ≡ together j (at_key j g1) (at_key j g2)
        → at_key j ((a.0, (a.1, [])) ∷ out) ≡ together j (at_key j (a ∷ g1)) (at_key j g2)
    of_left a g1 g2 out j h1 h2 rest = elim (Bool-cases (e.beq a.0 j)) [
      | inr miss ↦ rw miss rest
      | inl hit ↦
          let none1 = gone a j g1 hit h1 in
          let none2 = gone a j g2 hit h2 in
          let empty : at_key j out ≡ [] = rest ∙ rw (none1, none2) refl in
          rw (hit, empty, none1, none2) (ap (λ k. (k, (a.1, [])) ∷ []) ((e.beq_iff a.0 j).0 hit))
    ]

    of_right :
        (b : K × List W) (g1 : List (K × List V)) (g2 : List (K × List W))
        (out : List (Cogroup K V W)) (j : K)
        → All (λ r. less b.0 r.0 ≡ true) g1
        → All (λ r. less b.0 r.0 ≡ true) g2
        → at_key j out ≡ together j (at_key j g1) (at_key j g2)
        → at_key j ((b.0, ([], b.1)) ∷ out) ≡ together j (at_key j g1) (at_key j (b ∷ g2))
    of_right b g1 g2 out j h1 h2 rest = elim (Bool-cases (e.beq b.0 j)) [
      | inr miss ↦
          at_key-miss j (b.0, ([], b.1)) out miss
          ∙ rest
          ∙ ap (together j (at_key j g1)) (sym (at_key-miss j b g2 miss))
      | inl hit ↦
          let none1 = gone b j g1 hit h1 in
          let none2 = gone b j g2 hit h2 in
          let empty : at_key j out ≡ [] = rest ∙ rw (none1, none2) refl in
          let right = at_key-hit j b g2 hit ∙ ap (◌∷◌ b) none2 in
          at_key-hit j (b.0, ([], b.1)) out hit
          ∙ ap (◌∷◌ (b.0, ([], b.1))) empty
          ∙ ap (λ k. (k, ([], b.1)) ∷ []) ((e.beq_iff b.0 j).0 hit)
          ∙ sym (ap₂ (together j) none1 right)
    ]

    of_both :
        (a : K × List V) (b : K × List W) (g1 : List (K × List V)) (g2 : List (K × List W))
        (out : List (Cogroup K V W)) (j : K)
        → a.0 ≡ b.0
        → All (λ r. less a.0 r.0 ≡ true) g1
        → All (λ r. less b.0 r.0 ≡ true) g2
        → at_key j out ≡ together j (at_key j g1) (at_key j g2)
        → at_key j ((a.0, (a.1, b.1)) ∷ out) ≡ together j (at_key j (a ∷ g1)) (at_key j (b ∷ g2))
    of_both a b g1 g2 out j same h1 h2 rest =
        let keys : e.beq b.0 j ≡ e.beq a.0 j = ap (λ m. e.beq m j) (sym same) in
        elim (Bool-cases (e.beq a.0 j)) [
          | inr miss ↦
              at_key-miss j (a.0, (a.1, b.1)) out miss
              ∙ rest
              ∙ sym (ap₂ (together j) (at_key-miss j a g1 miss) (at_key-miss j b g2 (keys ∙ miss)))
          | inl hit ↦
              let none1 = gone a j g1 hit h1 in
              let none2 = gone b j g2 (keys ∙ hit) h2 in
              let empty : at_key j out ≡ [] = rest ∙ rw (none1, none2) refl in
              let left = at_key-hit j a g1 hit ∙ ap (◌∷◌ a) none1 in
              let right = at_key-hit j b g2 (keys ∙ hit) ∙ ap (◌∷◌ b) none2 in
              at_key-hit j (a.0, (a.1, b.1)) out hit
              ∙ ap (◌∷◌ (a.0, (a.1, b.1))) empty
              ∙ ap (λ k. (k, (a.1, b.1)) ∷ []) ((e.beq_iff a.0 j).0 hit)
              ∙ sym (ap₂ (together j) left right)
        ]

    abbrev Cogroups : List (K × List V) → List (K × List W) → Type 0
    Cogroups g1 g2 =
        (out : List (Cogroup K V W)) × Yields (cogroup_next less) (g1, g2) out
        × (length out ≤ length g1 + length g2)
        × ((j : K) → at_key j out ≡ together j (at_key j g1) (at_key j g2))

    cogroup_next-Cogroups :
        (g1 : List (K × List V)) (g2 : List (K × List W))
        → Ascending less g1
        → Ascending less g2
        → Cogroups g1 g2
    unfolding cogroup_next
    cogroup_next-Cogroups [] [] h1 h2 = ([], done {s' = ([], [])} refl, omega arith, λ j. refl)
    cogroup_next-Cogroups (a ∷ g1) [] h1 h2 =
        let (out, y, count, of_keys) = cogroup_next-Cogroups g1 [] h1.1 h2 in
        (
          (a.0, (a.1, [])) ∷ out,
          more {s' = (g1, [])} refl y,
          omega (arith, count),
          λ j. of_left a g1 [] out j h1.0 tt (of_keys j),
        )
    cogroup_next-Cogroups [] (b ∷ g2) h1 h2 =
        let (out, y, count, of_keys) = cogroup_next-Cogroups [] g2 h1 h2.1 in
        (
          (b.0, ([], b.1)) ∷ out,
          more {s' = ([], g2)} refl y,
          omega (arith, count),
          λ j. of_right b [] g2 out j tt h2.0 (of_keys j),
        )
    cogroup_next-Cogroups (a ∷ g1) (b ∷ g2) h1 h2 = elim (Bool-cases (e.beq a.0 b.0)) [
      | inl same ↦
          let (out, y, count, of_keys) = cogroup_next-Cogroups g1 g2 h1.1 h2.1 in
          (
            (a.0, (a.1, b.1)) ∷ out,
            more {s' = (g1, g2)} (ground (arith, same)) y,
            omega (arith, count),
            λ j. of_both a b g1 g2 out j ((e.beq_iff a.0 b.0).0 same) h1.0 h2.0 (of_keys j),
          )
      | inr apart ↦ elim (Bool-cases (less a.0 b.0)) [
        | inl lt ↦
            let (out, y, count, of_keys) = cogroup_next-Cogroups g1 (b ∷ g2) h1.1 h2 in
            (
              (a.0, (a.1, [])) ∷ out,
              more {s' = (g1, b ∷ g2)} (ground (arith, apart, lt)) y,
              omega (arith, count),
              λ j. of_left a g1 (b ∷ g2) out j h1.0 (lt, above_all a.0 b.0 g2 lt h2.0) (of_keys j),
            )
        | inr ge ↦
            let gt : less b.0 a.0 ≡ true = elim (Bool-cases (less b.0 a.0)) [
              | inl is ↦ is
              | inr le ↦ absurd (ground (arith, tie a.0 b.0 ge le, e.beq_iff a.0 b.0, apart))
            ] in
            let (out, y, count, of_keys) = cogroup_next-Cogroups (a ∷ g1) g2 h1 h2.1 in
            (
              (b.0, ([], b.1)) ∷ out,
              more {s' = (a ∷ g1, g2)} (ground (arith, apart, ge)) y,
              omega (arith, count),
              λ j. of_right b (a ∷ g1) g2 out j (gt, above_all b.0 a.0 g1 gt h1.0) h2.0 (of_keys j),
            )
      ]
    ]

    -- From the groups of two streams, the iterator of a cogroup yields, for each key that has a record in
    -- one of them, one cogroup, of all values of the key in each stream, in their order.
    pub cogroup_next-cogrouped :
        (s1 : List (K × V)) (s2 : List (K × W)) (g1 : List (K × List V)) (g2 : List (K × List W))
        → AreGroups less s1 g1
        → AreGroups less s2 g2
        → (out : List (Cogroup K V W)) × Yields (cogroup_next less) (g1, g2) out
          × (length out ≤ length s1 + length s2)
          × ((j : K) → at_key j out ≡ cogrouped j (values_of j s1) (values_of j s2))
    cogroup_next-cogrouped s1 s2 g1 g2 (asc1, count1, keys1) (asc2, count2, keys2) =
        let (out, y, count, of_keys) = cogroup_next-Cogroups g1 g2 asc1 asc2 in
        (
          out,
          y,
          omega (arith, count, count1, count2),
          λ j.
              of_keys j
              ∙ ap₂ (together j) (keys1 j) (keys2 j)
              ∙ together-grouped j (values_of j s1) (values_of j s2),
        )
