-- ===== src/LocalShuffle.antt =====
-- shuffle.go: the shuffle manager of a single process, and the map and reduce sides of its shuffles.
pub mod Roundtrip
use go_spark.Prelude.{
  ℕ, zero, suc, ◌+◌, Bool, true, false, Option, none, some, List, [], ◌∷◌, ◌++◌, ◌==◌,
  if◌then◌else◌, flatten,
}
use go_spark.Prelude.Maps.{nat_eq, lookup, delete, assign}

-- The records of each reducer.
abbrev pub Buckets : Type 0 → Type 0
Buckets A = List (ℕ × List A)

-- A shuffleData: the buckets of each map.
abbrev pub Blocks : Type 0 → Type 0
Blocks A = List (ℕ × Buckets A)

-- A LocalShuffleManager: the data of each shuffle.
abbrev pub Shuffles : Type 0 → Type 0
Shuffles A = List (ℕ × Blocks A)

module _ {A : Type 0} where
  -- newShuffleData
  abbrev pub new_shuffle_data : Blocks A
  new_shuffle_data = []

  -- shuffleData.Write
  unfoldable pub write_blocks : ℕ → Buckets A → Blocks A → Blocks A
  unfolding assign
  write_blocks map_id buckets d = assign map_id buckets d

  -- The loop of shuffleData.Read, with `n` maps left, from `map_id` on.
  unfoldable pub read_from : ℕ → ℕ → ℕ → Blocks A → List (List A)
  read_from reduce_id zero map_id d = []
  read_from reduce_id (suc n) map_id d =
      let rest = read_from reduce_id n (map_id + 1) d in
      elim (lookup map_id d) [
        | none ↦ rest
        | some buckets ↦ elim (lookup reduce_id buckets) [
          | none ↦ rest
          | some records ↦ records ∷ rest
        ]
      ]

  -- shuffleData.Read
  unfoldable pub read_blocks : ℕ → ℕ → Blocks A → List (List A)
  unfolding read_from
  read_blocks reduce_id num_maps d = read_from reduce_id num_maps 0 d

  -- RegisterShuffle
  unfoldable pub register_shuffle : ℕ → Shuffles A → Shuffles A
  unfolding assign
  register_shuffle shuffle_id m = elim (lookup shuffle_id m) [
    | some d ↦ m
    | none ↦ assign shuffle_id new_shuffle_data m
  ]

  abbrev pub blocks_of : ℕ → Shuffles A → Blocks A
  blocks_of shuffle_id m = elim (lookup shuffle_id m) [ some d ↦ d | none ↦ new_shuffle_data ]

  -- WriteMapOutput, which registers a shuffle that it does not know.
  unfoldable pub write_map_output : ℕ → ℕ → Buckets A → Shuffles A → Shuffles A
  unfolding write_blocks assign
  write_map_output shuffle_id map_id buckets m =
      assign shuffle_id (write_blocks map_id buckets (blocks_of shuffle_id m)) m

  -- ReadReduceOutput
  unfoldable pub read_reduce_output : ℕ → ℕ → ℕ → Shuffles A → List (List A)
  unfolding read_blocks
  read_reduce_output shuffle_id reduce_id num_maps m = elim (lookup shuffle_id m) [
    | none ↦ []
    | some d ↦ read_blocks reduce_id num_maps d
  ]

  abbrev pub bucket_of : ℕ → Buckets A → List A
  bucket_of reduce_id buckets = elim (lookup reduce_id buckets) [
    | none ↦ []
    | some records ↦ records
  ]

  -- The loop of writeShuffleMapOutput over the pairs of its partition.
  unfoldable pub fill : (A → ℕ) → List A → Buckets A → Buckets A
  unfolding assign
  fill partition [] buckets = buckets
  fill partition (pair ∷ pairs) buckets =
      fill partition pairs
        (assign (partition pair) (bucket_of (partition pair) buckets ++ pair ∷ []) buckets)

  -- Its second loop, which gives each reducer a bucket.
  unfoldable pub add_empty : ℕ → Buckets A → Buckets A
  unfolding assign
  add_empty zero buckets = buckets
  add_empty (suc i) buckets =
      let before = add_empty i buckets in
      elim (lookup i before) [ some records ↦ before | none ↦ assign i [] before ]

  -- writeShuffleMapOutput
  unfoldable pub write_shuffle_map_output : (A → ℕ) → ℕ → ℕ → ℕ → List A → Shuffles A → Shuffles A
  unfolding fill add_empty write_map_output
  write_shuffle_map_output partition num_partitions shuffle_id map_id pairs m =
      write_map_output shuffle_id map_id (add_empty num_partitions (fill partition pairs [])) m

  -- The map tasks of a shuffle, from the map `map_id` on.
  unfoldable pub run_maps : (A → ℕ) → ℕ → ℕ → ℕ → List (List A) → Shuffles A → Shuffles A
  unfolding write_shuffle_map_output
  run_maps partition num_partitions shuffle_id map_id [] m = m
  run_maps partition num_partitions shuffle_id map_id (pairs ∷ inputs) m =
      run_maps partition num_partitions shuffle_id (map_id + 1) inputs
        (write_shuffle_map_output partition num_partitions shuffle_id map_id pairs m)
