-- ===== src/Combine/Keys.antt =====
-- shuffle_combine.go: the slots of combineMapOutput against the values of each key.
use go_spark.Prelude.{
  ◌≡◌, refl, sym, subst, ◌∙◌, Bool-cases, inl, inr, true, Option, Option-cases, none, some, List,
  [], ◌∷◌, arith, if◌then◌else◌, map, select,
}
use go_spark.Prelude.Maps.{Eq, OneEntry, OneEntry-assign, lookup, lookup-assign}
use go_spark.Combine.{ShuffleDep, Slot, combine_item, combine_items, combine_map_output}

module _ {K I V C : Type 0} ⦃e : Eq K⦄ (dep : ShuffleDep K I V C) where
  -- The combination of values, the first one first.
  abbrev pub merged : C → List V → C
  merged c [] = c
  merged c (v ∷ values) = merged (dep.merge_value c v) values

  -- The items of a key.
  abbrev pub of_key : K → List I → List I
  of_key key items = select (λ i. e.beq (dep.extract_key i) key) items

  -- The slot of a key whose items come after those of a slot.
  abbrev pub extended : Option (Slot I C) → List I → Option (Slot I C)
  extended none [] = none
  extended none (i ∷ items) =
      some (i, merged (dep.create_combiner (dep.pair_value i)) (map dep.pair_value items))
  extended (some s) items = some (s.0, merged s.1 (map dep.pair_value items))

  extended-nil : (o : Option (Slot I C)) → o ≡ extended o []
  extended-nil none = refl
  extended-nil (some s) = refl

  extended-cons :
      (o : Option (Slot I C)) (i : I) (items : List I)
      → extended (extended o (i ∷ [])) items ≡ extended o (i ∷ items)
  extended-cons none i items = refl
  extended-cons (some s) i items = refl

  lookup-combine_item :
      (key : K) (i : I) (slots : List (K × Slot I C))
      → lookup key (combine_item dep i slots) ≡ (
          if e.beq (dep.extract_key i) key
          then extended (lookup key slots) (i ∷ [])
          else lookup key slots)
  unfolding combine_item
  lookup-combine_item key i slots = elim (Bool-cases (e.beq (dep.extract_key i) key)) [
    | inl hit ↦
        let same : dep.extract_key i ≡ key = (e.beq_iff (dep.extract_key i) key).0 hit in
        elim (Option-cases (lookup (dep.extract_key i) slots)) [
          | inl absent ↦
              let here : lookup key slots ≡ none = subst (λ k. lookup k slots ≡ none) same absent in
              ground (
                arith,
                absent,
                here,
                hit,
                lookup-assign key (dep.extract_key i) (i, dep.create_combiner (dep.pair_value i))
                    slots,
              )
          | inr (s, present) ↦
              let here : lookup key slots ≡ some s =
                subst (λ k. lookup k slots ≡ some s) same present in
              ground (
                arith,
                present,
                here,
                hit,
                lookup-assign key (dep.extract_key i) (s.0, dep.merge_value s.1 (dep.pair_value i))
                    slots,
              )
        ]
    | inr miss ↦ elim (Option-cases (lookup (dep.extract_key i) slots)) [
      | inl absent ↦ ground (
        arith,
        absent,
        miss,
        lookup-assign key (dep.extract_key i) (i, dep.create_combiner (dep.pair_value i)) slots,
      )
      | inr (s, present) ↦ ground (
        arith,
        present,
        miss,
        lookup-assign key (dep.extract_key i) (s.0, dep.merge_value s.1 (dep.pair_value i)) slots,
      )
    ]
  ]

  lookup-combine_items :
      (key : K) (items : List I) (slots : List (K × Slot I C))
      → lookup key (combine_items dep items slots) ≡ extended (lookup key slots) (of_key key items)
  unfolding combine_items
  lookup-combine_items key [] slots = extended-nil (lookup key slots)
  lookup-combine_items key (i ∷ items) slots =
      let rest = lookup-combine_items key items (combine_item dep i slots) in
      let step = lookup-combine_item key i slots in
      elim (Bool-cases (e.beq (dep.extract_key i) key)) [
        | inl hit ↦
            let here : lookup key (combine_item dep i slots)
                ≡ extended (lookup key slots) (i ∷ []) =
              ground (arith, step, hit) in
            rw hit (
              rest
              ∙ subst
                  (λ o.
                    extended o (of_key key items)
                    ≡ extended (extended (lookup key slots) (i ∷ [])) (of_key key items))
                  (sym here) refl
              ∙ extended-cons (lookup key slots) i (of_key key items))
        | inr miss ↦
            let here : lookup key (combine_item dep i slots) ≡ lookup key slots =
              ground (arith, step, miss) in
            rw miss (
              subst
                (λ o.
                  lookup key (combine_items dep items (combine_item dep i slots))
                  ≡ extended o (of_key key items))
                here rest)
      ]

  OneEntry-combine_item :
      (i : I) (slots : List (K × Slot I C)) → OneEntry slots → OneEntry (combine_item dep i slots)
  unfolding combine_item
  OneEntry-combine_item i slots h = elim (Option-cases (lookup (dep.extract_key i) slots)) [
    | inl absent ↦
        rw (absent, combine_item)
          (OneEntry-assign (dep.extract_key i) (i, dep.create_combiner (dep.pair_value i)) slots h)
    | inr (s, present) ↦
        rw (present, combine_item)
          (OneEntry-assign (dep.extract_key i) (s.0, dep.merge_value s.1 (dep.pair_value i)) slots
            h)
  ]

  OneEntry-combine_items :
      (items : List I) (slots : List (K × Slot I C))
      → OneEntry slots
      → OneEntry (combine_items dep items slots)
  unfolding combine_items
  OneEntry-combine_items [] slots h = h
  OneEntry-combine_items (i ∷ items) slots h =
      OneEntry-combine_items items (combine_item dep i slots) (OneEntry-combine_item i slots h)

  -- The output has one item for each key of the input.
  pub record IsCombined (items out : List I) : Type 0 where
    pub slots : List (K × Slot I C)
    pub one_for_each : OneEntry slots
    pub combines : (key : K) → lookup key slots ≡ extended none (of_key key items)
    pub written : out ≡ map (λ s. dep.replace_pair_value s.1.0 s.1.1) slots

  -- With map-side combination, the output has one item for each key of the input, made of the first
  -- item of the key and of the combination of all its values, in their order.
  pub combine_map_output-IsCombined :
      (items : List I)
      → dep.map_side_combine ≡ true
      → dep.has_aggregator ≡ true
      → IsCombined items (combine_map_output dep items)
  unfolding combine_map_output
  combine_map_output-IsCombined items on has = record {
    slots = combine_items dep items [];
    one_for_each = OneEntry-combine_items items [] tt;
    combines = λ key. lookup-combine_items key items [];
    written = rw (on, has) refl;
  }
