-- ===== src/Rdds.antt =====
-- rdd_creators.go, rdd_transformations.go, cartesian_rdd.go, rdd_actions.go and tree_actions.go: RDDs as
-- the records of their partitions. The iterators are in Iterator.
pub mod Slices
pub mod Folds
pub mod Mapped
pub mod Coalesced
use mathlib.Core.List.{foldl}
use mathlib.Core.Option
use go_spark.Prelude.{
  ℕ, zero, suc, ◌+◌, ◌-◌, ◌*◌, ◌/◌, ◌%◌, ◌^◌, ◌&&◌, Bool, true, false, Option, none, some, List, [],
  ◌∷◌, ◌++◌, ltb, leb, ◌==◌, if◌then◌else◌, length, get_or, set, take, drop, replicate, select, map,
  flat_map, flatten,
}
use go_spark.Prelude.Results.{Result, ok, err, ◌>>=◌}

-- The number of slices: at least one, and at most one for each record.
abbrev pub clamp : ℕ → ℕ → ℕ
clamp n len = let n' = if n == 0 then 1 else n in if ltb len n' then len else n'

-- The quotient of an int of 64 bits, in which `p` wraps; none if it is negative.
abbrev pub quotient : ℕ → ℕ → Option ℕ
quotient p n =
    let q = p % 2 ^ 64 in
    if ltb q (2 ^ 63) then some (q / n) else if (2 ^ 64 - q) / n == 0 then some 0 else none

-- What Compute yields for each partition.
abbrev pub Partitions {ℓ} : Type ℓ → Type ℓ
Partitions T = List (List T)

module _ {ℓ} {T : Type ℓ} where
  -- data[start:end:end], and the slices after it; a slice out of range is a panic.
  abbrev pub slice_between :
      List T → Option ℕ → Option ℕ → Option (Partitions T) → Option (Partitions T)
  slice_between records none end rest = none
  slice_between records (some start) none rest = none
  slice_between records (some start) (some end) rest =
      if leb start end && leb end (length records)
      then Option.map (◌∷◌ (take (end - start) (drop start records))) rest
      else none

  -- The loop of sliceData, `c` slices from `i` on.
  pub slices_from : ℕ → ℕ → ℕ → List T → Option (Partitions T)
  slices_from zero i n records = some []
  slices_from (suc c) i n records =
      slice_between records (quotient (i * length records) n)
        (quotient ((i + 1) * length records) n) (slices_from c (i + 1) n records)

  -- sliceData
  unfoldable pub slice_data : List T → ℕ → Option (Partitions T)
  unfolding slices_from
  slice_data [] n = some ([] ∷ [])
  slice_data (x ∷ xs) n = let m = clamp n (length (x ∷ xs)) in slices_from m 0 m (x ∷ xs)

  abbrev pub is_filled : List T → Bool
  is_filled [] = false
  is_filled (x ∷ xs) = true

  abbrev pub or_empty : Partitions T → Partitions T
  or_empty [] = [] ∷ []
  or_empty (p ∷ ps) = p ∷ ps

  -- newParallelCollectionRDD: the slices that are not empty, or one empty partition.
  unfoldable pub parallel_collection : List T → ℕ → Option (Partitions T)
  unfolding slice_data
  parallel_collection records n =
      Option.map (λ slices. or_empty (select is_filled slices)) (slice_data records n)

  -- Union of an RDD and others: their partitions, one RDD after the other. The union of none panics.
  unfoldable pub union : Partitions T → List (Partitions T) → Partitions T
  unfolding flatten
  union first rdds = first ++ flatten rdds

  -- The partitions of newCoalescedRDD as the loop over the partitions of the parent, from the index `i`
  -- on, fills them: partition `i % n` chains what it has with the parent's partition `i`.
  pub coalesce_loop : ℕ → ℕ → Partitions T → Partitions T → Partitions T
  coalesce_loop n i [] out = out
  coalesce_loop n i (p ∷ parent) out =
      coalesce_loop n (i + 1) parent (set out (i % n) (get_or out (i % n) [] ++ p))

  -- Coalesce without a shuffle; into no partitions it panics, if the parent has any.
  unfoldable pub coalesce : ℕ → Partitions T → Option (Partitions T)
  unfolding coalesce_loop
  coalesce n parent =
      if leb (length parent) n
      then some parent
      else if n == 0
      then none
      else some (coalesce_loop n 0 parent (replicate n []))

  -- Filter
  unfoldable pub filter_rdd : (T → Bool) → Partitions T → Partitions T
  filter_rdd fn parts = map (select fn) parts

  -- Collect
  unfoldable pub collect : Partitions T → List T
  unfolding flatten
  collect parts = flatten parts

  -- Count: the order in which the partitions add does not matter.
  unfoldable pub count : Partitions T → ℕ
  count [] = 0
  count (p ∷ parts) = length p + count parts

  -- ReduceIterator of a partition.
  abbrev pub reduce_records : (T → T → T) → List T → Option T
  reduce_records fn [] = none
  reduce_records fn (x ∷ xs) = some (foldl fn x xs)

  -- `first` and `found` after the result of a partition.
  abbrev pub merge_valid : (T → T → T) → Option T → Option T → Option T
  merge_valid fn acc none = acc
  merge_valid fn none (some v) = some v
  merge_valid fn (some first) (some v) = some (fn first v)

  -- Reduce
  unfoldable pub reduce : (T → T → T) → Partitions T → Option T
  reduce fn parts = foldl (merge_valid fn) none (map (reduce_records fn) parts)

  -- Fold
  unfoldable pub fold : T → (T → T → T) → Partitions T → T
  fold init fn parts = foldl fn init (map (foldl fn init) parts)

  -- The loop of Take; `take` is TakeIterator of the partition.
  pub take_loop : ℕ → Partitions T → List T → List T
  take_loop n [] result = result
  take_loop n (p ∷ parts) result =
      let result' = result ++ take (n - length result) p in
      let rest = take_loop n parts result' in
      if leb n (length result)
      then result
      else if leb n (length result')
      then take n result'
      else rest

  -- Take
  unfoldable pub take_records : ℕ → Partitions T → List T
  unfolding take_loop
  take_records n parts = take_loop n parts []

module _ {ℓ κ} {T : Type ℓ} {U : Type κ} where
  -- Map and FlatMap
  unfoldable pub map_rdd : (T → U) → Partitions T → Partitions U
  map_rdd fn parts = map (map fn) parts

  unfoldable pub flat_map_rdd : (T → List U) → Partitions T → Partitions U
  unfolding flat_map
  flat_map_rdd fn parts = map (flat_map fn) parts

  -- Every record of the left partition with every record of the right one.
  pub pairs : List T → List U → List (T × U)
  pairs [] right = []
  pairs (l ∷ left) right = map (λ r. (l, r)) right ++ pairs left right

  -- newCartesianRDD: a partition for each pair of partitions.
  unfoldable pub cartesian : Partitions T → Partitions U → Partitions (T × U)
  unfolding pairs
  cartesian [] right = []
  cartesian (p ∷ left) right = map (pairs p) right ++ cartesian left right

  -- TreeAggregate
  unfoldable pub tree_aggregate : U → (U → T → U) → (U → U → U) → Partitions T → U
  tree_aggregate init seq_op comb_op parts = foldl comb_op init (map (foldl seq_op init) parts)

-- A treeAction; `init` is none for a reduction.
pub record TreeAction {ℓ κ} (T : Type ℓ) (U : Type κ) : Type (ℓ ⊔ κ) where
  pub partial : List T → Option U
  pub merge : U → U → U
  pub init : Option U

pub data TreeError : Type 0 where
  multiple_partials : TreeError

module _ {ℓ κ} {T : Type ℓ} {U : Type κ} where
  -- The actions that RegisterTreeAggregate and RegisterTreeReduce register.
  abbrev pub tree_aggregate_action : U → (U → T → U) → (U → U → U) → TreeAction T U
  tree_aggregate_action init seq_op comb_op = record {
    partial = λ records. some (foldl seq_op init records);
    merge = comb_op;
    init = some init;
  }

abbrev pub tree_reduce_action {ℓ} : {T : Type ℓ} → (T → T → T) → TreeAction T T
tree_reduce_action fn = record { partial = reduce_records fn; merge = fn; init = none }

module _ {ℓ} {U : Type ℓ} where
  -- The records of the result of a partition's task.
  abbrev pub partial_records : Option U → List U
  partial_records none = []
  partial_records (some v) = v ∷ []

  -- The loop of mergeTreeResults over the records of the results.
  pub merge_partials : (U → U → U) → Option U → List (List U) → Result TreeError (Option U)
  merge_partials merge acc [] = ok acc
  merge_partials merge acc ([] ∷ results) = merge_partials merge acc results
  merge_partials merge none ((v ∷ []) ∷ results) = merge_partials merge (some v) results
  merge_partials merge (some a) ((v ∷ []) ∷ results) =
      merge_partials merge (some (merge a v)) results
  merge_partials merge acc ((v ∷ w ∷ vs) ∷ results) = err multiple_partials

module _ {ℓ κ} {T : Type ℓ} {U : Type κ} where
  -- mergeTreeResults
  unfoldable pub merge_tree_results : TreeAction T U → List (List U) → Result TreeError (List U)
  unfolding merge_partials
  merge_tree_results action results =
      merge_partials action.merge action.init results >>= λ acc. ok (partial_records acc)

  -- The partials that the tasks send, one for each partition, merged by the driver.
  unfoldable pub merge_task_partials : TreeAction T U → Partitions T → Result TreeError (List U)
  unfolding merge_tree_results
  merge_task_partials action parts =
      merge_tree_results action (map (λ records. partial_records (action.partial records)) parts)
