-- ===== src/RangeSort/SortByKey.antt =====
-- SortByKey as a whole: what the map tasks wrote, read range by range and sorted within the budget.
use go_spark.Prelude.{
  ℕ, zero, suc, ◌+◌, ◌<◌, ◌≤◌, ◌≡◌, refl, ap, ◌∙◌, Bool, false, inl, inr, Option, none, some, List,
  [], ◌∷◌, arith, ◌==◌, flatten, select, Bool-cases,
}
use go_spark.Prelude.Results.{ok}
use go_spark.Order.{WeakOrder, sort_stable}
use go_spark.Partitioner.{RangePartitioner, range_partition}
use go_spark.Partitioner.Bounds.{range_partition-lt}
use go_spark.Partitioner.Search.{range_partition_mono}
use go_spark.Shuffle.{MapTask}
use go_spark.Shuffle.Buckets.{Written, read_reduce_lem, bucket}
use go_spark.ExternalSort.{Budget}
use go_spark.ExternalSort.Correct.{check_sizes, external_sort_lem}
use go_spark.RangeSort.{sort_ranges}
use go_spark.RangeSort.Sampling.{AreBounds}
use go_spark.RangeSort.Global.{ranges, ranges-sort_stable}

module _ {ℓ κ} {V : Type ℓ} {K : Type κ} (less : K → K → Bool) (o : WeakOrder less)
    (key : V → K) where
  -- The comparison of records that SortByKey sorts by.
  abbrev pub by_key : V → V → Bool
  by_key v w = less (key v) (key w)

  pub by_key-WeakOrder : WeakOrder by_key
  by_key-WeakOrder = record {
    irrefl = λ a. o.irrefl (key a);
    trans = λ a b c. o.trans (key a) (key b) (key c);
    negtrans = λ a b c. o.negtrans (key a) (key b) (key c);
  }

  -- Every record fits the budget.
  abbrev pub Fits : (V → ℕ) → Budget → List V → Type 0
  Fits size b [] = Unit
  Fits size b (v ∷ vs) =
      ((size v ≤ b.record_bytes) × (size v + 64 ≤ b.memory_bytes)) × Fits size b vs

  pub Fits-check_sizes :
      (size : V → ℕ) (b : Budget) (vs : List V) → Fits size b vs → check_sizes size b vs ≡ ok tt
  Fits-check_sizes size b [] f = refl
  Fits-check_sizes size b (v ∷ vs) f = ground (arith, Fits-check_sizes size b vs f.1)

  Fits-select :
      (size : V → ℕ) (b : Budget) (p : V → Bool) (vs : List V)
      → Fits size b vs
      → Fits size b (select p vs)
  Fits-select size b p [] f = f
  Fits-select size b p (v ∷ vs) f = elim (Bool-cases (p v)) [
    | inl e ↦ rw e (f.0, Fits-select size b p vs f.1)
    | inr e ↦ rw e (Fits-select size b p vs f.1)
  ]

  range_mono :
      (n : ℕ) (bounds : Option (List K))
      → AreBounds less o n bounds
      → (v w : V) → by_key w v ≡ false
      → range_partition less (record { num_partitions = n; range_bounds = bounds }) (key v)
        ≤ range_partition less (record { num_partitions = n; range_bounds = bounds }) (key w)
  unfolding range_partition
  range_mono n none a v w le = omega arith
  range_mono n (some bounds) a v w le = range_partition_mono less o n bounds (key v) (key w) a.1 le

  module _ (t : MapTask V) (b : Budget) (bounds : Option (List K)) where
    abbrev partitioner : RangePartitioner K
    partitioner = record { num_partitions = t.num_partitions; range_bounds = bounds }

    sort_ranges-ranges :
        {maps : List (List (List V))} {inputs : List (List V)} (c rid : ℕ)
        → Written t maps inputs
        → Fits t.size b (flatten inputs)
        → rid + c ≤ t.num_partitions
        → sort_ranges by_key t.size b maps c rid
          ≡ some (ranges by_key t.partition c rid (flatten inputs))
    unfolding sort_ranges ranges
    sort_ranges-ranges zero rid w f le = refl
    sort_ranges-ranges {maps} {inputs} (suc c) rid w f le = rw (
      read_reduce_lem t rid w (omega arith),
      external_sort_lem by_key by_key-WeakOrder t.size b (bucket t rid (flatten inputs)),
      Fits-check_sizes t.size b _
          (Fits-select t.size b (λ v. t.partition v == rid) (flatten inputs) f),
      sort_ranges-ranges {maps = maps} {inputs = inputs} c (rid + 1) w f (omega arith),
    )

    -- If the keys have a weak order, there is a reducer, the map tasks partition by the range of the
    -- key, for bounds that are nil or ascend and are one fewer than the reducers, and every record
    -- fits the budget, then the sorted ranges one after the other are the stable sort by key of the
    -- records of all inputs.
    pub sort_ranges-sort_stable :
        {maps : List (List (List V))} {inputs : List (List V)}
        → AreBounds less o t.num_partitions bounds
        → ((v : V) → t.partition v ≡ range_partition less partitioner (key v))
        → 0 < t.num_partitions
        → Written t maps inputs
        → Fits t.size b (flatten inputs)
        → sort_ranges by_key t.size b maps t.num_partitions 0
          ≡ some (sort_stable by_key (flatten inputs))
    sort_ranges-sort_stable {inputs} a own pos w f =
        sort_ranges-ranges t.num_partitions 0 w f (omega arith)
        ∙ ap some (
            ranges-sort_stable by_key by_key-WeakOrder t.partition
              (λ v w' le.
                omega (arith, own v, own w', range_mono t.num_partitions bounds a v w' le))
              t.num_partitions (flatten inputs)
              (λ v. omega (arith, own v, range_partition-lt less partitioner (key v) pos)))
