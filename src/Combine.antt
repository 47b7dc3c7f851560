-- ===== src/Combine.antt =====
-- shuffle_combine.go: combineMapOutput, which combines the values of each key before they are written.
-- The functions of the dependency, and the reflection of pairValue and replacePairValue, are parameters.
-- The order in which a Go map is visited is not determined; here it is that of the last use of a key.
pub mod Keys
use go_spark.Prelude.{
  Bool, true, false, not, ◌||◌, Option, none, some, List, [], ◌∷◌, ◌++◌, if◌then◌else◌, map,
}
use go_spark.Prelude.Maps.{Eq, lookup, delete, assign}

-- A ShuffleDep, if it is not nil, with its Aggregator, if that is not nil.
pub record ShuffleDep (K I V C : Type 0) : Type 0 where
  pub map_side_combine : Bool
  pub has_aggregator : Bool
  pub extract_key : I → K
  pub create_combiner : V → C
  pub merge_value : C → V → C
  pub pair_value : I → V
  pub replace_pair_value : I → C → I

-- A slot: the sample and the combiner.
abbrev pub Slot : Type 0 → Type 0 → Type 0
Slot I C = I × C

module _ {K I V C : Type 0} ⦃e : Eq K⦄ (dep : ShuffleDep K I V C) where
  -- One round of the loop over the items.
  unfoldable pub combine_item : I → List (K × Slot I C) → List (K × Slot I C)
  unfolding assign
  combine_item item slots = elim (lookup (dep.extract_key item) slots) [
    | none ↦ assign (dep.extract_key item) (item, dep.create_combiner (dep.pair_value item)) slots
    | some slot ↦
        assign (dep.extract_key item) (slot.0, dep.merge_value slot.1 (dep.pair_value item)) slots
  ]

  unfoldable pub combine_items : List I → List (K × Slot I C) → List (K × Slot I C)
  unfolding combine_item
  combine_items [] slots = slots
  combine_items (item ∷ items) slots = combine_items items (combine_item item slots)

  -- combineMapOutput of a dependency that is not nil.
  unfoldable pub combine_map_output : List I → List I
  unfolding combine_items
  combine_map_output items =
      if not dep.map_side_combine || not dep.has_aggregator
      then items
      else map (λ s. dep.replace_pair_value s.1.0 s.1.1) (combine_items items [])
