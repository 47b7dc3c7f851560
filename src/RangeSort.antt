-- ===== src/RangeSort.antt =====
-- range_sort.go, and SortByKey of pair_rdd.go with what computeShuffleStages of rdd_actions.go does for
-- it: sampling the keys of every map partition, choosing range bounds, and sorting each range.
pub mod Sampling
pub mod Global
pub mod SortByKey
use Prim.Native.Nat.{bit_xor}
use go_spark.Prelude.{
  ℕ, zero, suc, ◌+◌, ◌-◌, ◌*◌, ◌/◌, ◌%◌, ◌^◌, Bool, true, false, Option, none, some, List, [], ◌∷◌,
  ◌++◌, ltb, leb, if◌then◌else◌, length, get_elem?, set, map, flatten,
}
use go_spark.Prelude.Results.{Result, ok, err, ◌>>=◌}
use go_spark.Order.{sort_stable}
use go_spark.Shuffle.{read_reduce}
use go_spark.ExternalSort.{SortError, Budget, external_sort}

abbrev pub sort_samples_per_map : ℕ
sort_samples_per_map = 64

abbrev pub max_sort_sample_bytes : ℕ
max_sort_sample_bytes = 4096

abbrev pub sort_global_samples : ℕ
sort_global_samples = 4096

-- The variables of sampleSortPartition; `seen` and `seed` are uint64.
pub record Reservoir {ℓ} (K : Type ℓ) : Type ℓ where
  pub samples : List K
  pub seen : ℕ
  pub seed : ℕ

module _ {ℓ} {K : Type ℓ} (size : K → ℕ) where
  -- A key that is not too large: kept while there is room, and then put into a slot by chance.
  unfoldable pub keep_sample : K → Reservoir K → Reservoir K
  keep_sample key r =
      let seen = (r.seen + 1) % 2 ^ 64 in
      if ltb (length r.samples) sort_samples_per_map
      then record r { samples = r.samples ++ key ∷ []; seen = seen }
      else let seed = (r.seed * 6364136223846793005 + 1442695040888963407) % 2 ^ 64 in
        let slot = seed % seen in
        record {
          samples = if ltb slot sort_samples_per_map then set r.samples slot key else r.samples;
          seen = seen;
          seed = seed;
        }

  -- One round of the loop of sampleSortPartition.
  unfoldable pub sample_key : K → Reservoir K → Reservoir K
  unfolding keep_sample
  sample_key key r = if ltb max_sort_sample_bytes (size key) then r else keep_sample key r

  unfoldable pub sample_keys : List K → Reservoir K → Reservoir K
  sample_keys [] r = r
  sample_keys (key ∷ keys) r = sample_keys keys (sample_key key r)

  -- sampleSortPartition of the keys of the partition with the given index.
  unfoldable pub sample_sort_partition : ℕ → List K → List K
  unfolding sample_keys
  sample_sort_partition index keys =
      let r : Reservoir K = sample_keys keys (record {
        samples = [];
        seen = 0;
        seed = ((index + 1) * 0x9e3779b97f4a7c15 + 1) % 2 ^ 64;
      }) in
      r.samples

-- The slot that appendSortSamples hashes `seen` to.
unfoldable pub sample_slot : ℕ → ℕ
sample_slot seen =
    let h0 = (seen + 0x9e3779b97f4a7c15) % 2 ^ 64 in
    let h1 = bit_xor h0 (h0 / 2 ^ 30) * 0xbf58476d1ce4e5b9 % 2 ^ 64 in
    let h2 = bit_xor h1 (h1 / 2 ^ 27) * 0x94d049bb133111eb % 2 ^ 64 in
    bit_xor h2 (h2 / 2 ^ 31) % seen

module _ {ℓ} {K : Type ℓ} where
  -- appendSortSamples: the samples and `*seen`.
  unfoldable pub append_sort_samples : List K → List K → ℕ → List K × ℕ
  unfolding sample_slot
  append_sort_samples samples [] seen = (samples, seen)
  append_sort_samples samples (key ∷ incoming) seen =
      let seen' = (seen + 1) % 2 ^ 64 in
      let slot = sample_slot seen' in
      append_sort_samples
        (if ltb (length samples) sort_global_samples
          then samples ++ key ∷ []
          else if ltb slot sort_global_samples
          then set samples slot key
          else samples)
        incoming seen'

  -- The loop of computeShuffleStages over the map partitions, from the index `i` on.
  unfoldable pub collect_samples : (K → ℕ) → ℕ → List (List K) → List K → ℕ → List K
  unfolding sample_sort_partition append_sort_samples
  collect_samples size i [] samples seen = samples
  collect_samples size i (keys ∷ parts) samples seen =
      let merged = append_sort_samples samples (sample_sort_partition size i keys) seen in
      collect_samples size (i + 1) parts merged.0 merged.1

  -- The loop of selectRangeBounds, `c` rounds from `p` on; `none` is an index out of range.
  bounds_from : ℕ → ℕ → ℕ → List K → Option (List K)
  bounds_from zero p reducers sorted = some []
  bounds_from (suc c) p reducers sorted = elim (get_elem? sorted (p * length sorted / reducers)) [
    | none ↦ none
    | some key ↦ elim (bounds_from c (p + 1) reducers sorted) [
      | none ↦ none
      | some bounds ↦ some (key ∷ bounds)
    ]
  ]

  -- selectRangeBounds: nil bounds are `some none`, and an index out of range is `none`.
  unfoldable pub select_range_bounds : (K → K → Bool) → List K → ℕ → Option (Option (List K))
  unfolding bounds_from
  select_range_bounds less [] reducers = some none
  select_range_bounds less (key ∷ samples) reducers =
      if leb reducers 1
      then some none
      else elim (bounds_from (reducers - 1) 1 reducers (sort_stable less (key ∷ samples))) [
        | none ↦ none
        | some bounds ↦ some (some bounds)
      ]

-- The reduce side of SortByKey: each range is read and sorted, and Collect puts the ranges one after
-- the other. `c` reduce partitions from `rid` on; `none` is a panic.
module _ {ℓ} {V : Type ℓ} (less : V → V → Bool) (size : V → ℕ) (b : Budget) where
  abbrev pub sorted_range : Result SortError (List V × ℕ) → Option (List V)
  sorted_range (ok (records, count)) = some records
  sorted_range (err e) = none

  abbrev pub join : Option (List V) → Option (List V) → Option (List V)
  join (some xs) (some ys) = some (xs ++ ys)
  join none r = none
  join (some xs) none = none

  unfoldable pub sort_ranges : List (List (List V)) → ℕ → ℕ → Option (List V)
  sort_ranges maps zero rid = some []
  sort_ranges maps (suc c) rid =
      join
        (elim (read_reduce maps rid) [
          | none ↦ none
          | some stream ↦ sorted_range (external_sort less size b stream)
        ])
        (sort_ranges maps c (rid + 1))
