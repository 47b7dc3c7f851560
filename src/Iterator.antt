-- ===== src/Iterator.antt =====
-- iterator.go: the iterator combinators. An iterator is a closure `func() (T, bool)`: a state, and
-- a function that gives the next record, if there is one, and the state after the call.
pub mod Yields
pub mod Drain
use mathlib.Core.Option
use go_spark.Prelude.{
  ℕ, zero, suc, ◌+◌, Bool, true, false, Option, none, some, List, [], ◌∷◌, ◌++◌, get_elem?,
}

abbrev pub Next {ℓ κ} : Type ℓ → Type κ → Type (ℓ ⊔ κ)
Next S T = S → Option T × S

-- EmptyIterator
unfoldable pub empty_iterator {ℓ κ} : {S : Type ℓ} {T : Type κ} → Next S T
empty_iterator s = (none, s)

-- SliceIterator; the state is the variable `i`.
unfoldable pub slice_iterator {ℓ} : {T : Type ℓ} → List T → Next ℕ T
slice_iterator l i = elim (get_elem? l i) [ none ↦ (none, i) | some v ↦ (some v, suc i) ]

module _ {ℓ κ μ} {S : Type ℓ} {T : Type κ} {U : Type μ} (next : Next S T) where
  -- MapIterator
  unfoldable pub map_iterator : (T → U) → Next S U
  map_iterator fn s = let (v, s') = next s in (Option.map fn v, s')

  -- FlatMapIterator; the state is the variable `buf` with the state of `iter`. Each round of the
  -- loop takes one unit of fuel.
  unfoldable pub flat_map_iterator : ℕ → (T → List U) → Next (List U × S) U
  flat_map_iterator fuel fn (u ∷ buf, s) = (some u, (buf, s))
  flat_map_iterator zero fn ([], s) = (none, ([], s))
  flat_map_iterator (suc fuel) fn ([], s) = elim (next s).0 [
    | none ↦ (none, ([], (next s).1))
    | some v ↦ flat_map_iterator fuel fn (fn v, (next s).1)
  ]

module _ {ℓ κ} {S : Type ℓ} {T : Type κ} (next : Next S T) where
  -- FilterIterator, with a unit of fuel for each round.
  unfoldable pub filter_iterator : ℕ → (T → Bool) → Next S T
  filter_iterator zero fn s = (none, s)
  filter_iterator (suc fuel) fn s = elim (next s).0 [
    | none ↦ (none, (next s).1)
    | some v ↦ elim (fn v) [
      | true ↦ (some v, (next s).1)
      | false ↦ filter_iterator fuel fn (next s).1
    ]
  ]

  -- CollectIterator, from `result` on; `none` means that the fuel ran out.
  unfoldable pub collect_iterator : ℕ → List T → S → Option (List T)
  collect_iterator zero result s = none
  collect_iterator (suc fuel) result s = elim (next s).0 [
    | none ↦ some result
    | some v ↦ collect_iterator fuel (result ++ v ∷ []) (next s).1
  ]

  -- CountIterator, from `count` on.
  unfoldable pub count_iterator : ℕ → ℕ → S → Option ℕ
  count_iterator zero count s = none
  count_iterator (suc fuel) count s = elim (next s).0 [
    | none ↦ some count
    | some v ↦ count_iterator fuel (count + 1) (next s).1
  ]

  -- The loop of ReduceIterator; ForeachIterator is the same loop over the effects of `fn`.
  unfoldable pub fold_iterator {μ} : {U : Type μ} → ℕ → (U → T → U) → U → S → Option U
  fold_iterator zero fn acc s = none
  fold_iterator (suc fuel) fn acc s = elim (next s).0 [
    | none ↦ some acc
    | some v ↦ fold_iterator fuel fn (fn acc v) (next s).1
  ]

  -- ReduceIterator: the inner option is the pair `(T, bool)`.
  unfoldable pub reduce_iterator : ℕ → (T → T → T) → S → Option (Option T)
  unfolding fold_iterator
  reduce_iterator fuel fn s = elim (next s).0 [
    | none ↦ some none
    | some first ↦ Option.map some (fold_iterator fuel fn first (next s).1)
  ]

  -- TakeIterator: at most `n` calls.
  unfoldable pub take_iterator : ℕ → List T → S → List T
  take_iterator zero result s = result
  take_iterator (suc n) result s = elim (next s).0 [
    | none ↦ result
    | some v ↦ take_iterator n (result ++ v ∷ []) (next s).1
  ]

  -- ChainIterators; the state is `iters[idx:]`.
  unfoldable pub chain_iterators : Next (List S) T
  chain_iterators [] = (none, [])
  chain_iterators (s ∷ iters) = elim (next s).0 [
    | none ↦ chain_iterators iters
    | some v ↦ (some v, (next s).1 ∷ iters)
  ]

-- expandIterator; the state is the variable `current` with the state of `input`.
module _ {ℓ κ μ ν} {S : Type ℓ} {T : Type κ} {R : Type μ} {U : Type ν} (input : Next S T)
    (sub : Next R U) where
  unfoldable pub expand_iterator : ℕ → (T → R) → Next (Option R × S) U
  expand_iterator zero fn (current, s) = (none, (current, s))
  expand_iterator (suc fuel) fn (none, s) = elim (input s).0 [
    | none ↦ (none, (none, (input s).1))
    | some v ↦ expand_iterator fuel fn (some (fn v), (input s).1)
  ]
  expand_iterator (suc fuel) fn (some r, s) = elim (sub r).0 [
    | some u ↦ (some u, (some (sub r).1, s))
    | none ↦ elim (input s).0 [
      | none ↦ (none, (some (sub r).1, (input s).1))
      | some v ↦ expand_iterator fuel fn (some (fn v), (input s).1)
    ]
  ]
