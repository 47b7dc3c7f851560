-- ===== src/Partitioner.antt =====
-- partitioner.go: which reduce partition a key belongs to.
-- `fmt.Sprintf("%v", key)` of the default case and the truncation of a float64 are what the `other`
-- and `float64` keys carry: the text, and the uint64 that the conversion gives.
pub mod Bounds
pub mod Search
use Prim.Native.Nat.{bit_xor}
use go_spark.Prelude.{
  ℕ, zero, suc, ◌+◌, ◌*◌, ◌/◌, ◌%◌, ◌^◌, ◌-◌, ◌==◌, Bool, true, false, Option, none, some, List, [],
  ◌∷◌, ltb, leb, if◌then◌else◌, length, get_or,
}

-- A key by its dynamic type. Signed integers are their 64-bit two's complement patterns, and the
-- bytes of texts are numbers below 256.
pub data Key : Type 0 where
  nil : Key
  string : List ℕ → Key
  int int32 int64 : ℕ → Key
  float64 : ℕ → Key
  other : List ℕ → Key

-- hash/fnv, 32 bits, variant 1a.
unfoldable pub fnv1a : ℕ → List ℕ → ℕ
fnv1a h [] = h
fnv1a h (b ∷ bs) = fnv1a (bit_xor h b * 16777619 % 2 ^ 32) bs

-- byte(k), byte(k >> 8), …: the `n` lowest bytes.
unfoldable pub low_bytes : ℕ → ℕ → List ℕ
low_bytes zero k = []
low_bytes (suc n) k = (k % 256) ∷ low_bytes n (k / 256)

-- What is written to the hash.
unfoldable pub key_bytes : Key → List ℕ
unfolding low_bytes
key_bytes nil = []
key_bytes (string s) = s
key_bytes (int k) = low_bytes 4 k
key_bytes (int32 k) = low_bytes 4 k
key_bytes (int64 k) = low_bytes 8 k
key_bytes (float64 k) = low_bytes 8 k
key_bytes (other s) = s

-- h.Sum32() after the writes, from the offset basis on.
unfoldable pub sum32 : List ℕ → ℕ
unfolding fnv1a
sum32 bs = fnv1a 2166136261 bs % 2 ^ 32

-- `h % n`; a remainder by 0 panics.
unfoldable pub remainder : ℕ → ℕ → Option ℕ
remainder h zero = none
remainder h (suc n) = some (h % suc n)

-- HashPartitioner.GetPartition
unfoldable pub hash_partition : ℕ → Key → Option ℕ
unfolding sum32 key_bytes remainder
hash_partition num_partitions nil = some 0
hash_partition num_partitions key = remainder (sum32 (key_bytes key)) num_partitions

-- sort.Search: the binary search of the standard library, for the smallest index at which the test
-- holds. The span halves, so that `n` rounds are enough.
unfoldable pub search_loop : ℕ → (ℕ → Bool) → ℕ → ℕ → ℕ
search_loop zero test i j = i
search_loop (suc fuel) test i j =
    let h = (i + j) / 2 in
    elim (ltb i j) [
      | false ↦ i
      | true ↦ elim (test h) [
        | true ↦ search_loop fuel test i h
        | false ↦ search_loop fuel test (h + 1) j
      ]
    ]

unfoldable pub search_first : ℕ → (ℕ → Bool) → ℕ
unfolding search_loop
search_first n test = search_loop n test 0 n

-- RangePartitioner; nil bounds are `none`.
pub record RangePartitioner {ℓ} (K : Type ℓ) : Type ℓ where
  pub num_partitions : ℕ
  pub range_bounds : Option (List K)

module _ {ℓ} {K : Type ℓ} (less : K → K → Bool) where
  -- `less(key, rangeBounds[i])`; the search stays below the length.
  abbrev pub below_bound : K → List K → ℕ → Bool
  below_bound key bounds i = less key (get_or bounds i key)

  range_partition_of : Option (List K) → ℕ → K → ℕ
  unfolding search_first
  range_partition_of none n key = 0
  range_partition_of (some bounds) n key =
      let idx = search_first (length bounds) (below_bound key bounds) in
      if leb n idx then n - 1 else idx

  -- RangePartitioner.GetPartition
  unfoldable pub range_partition : RangePartitioner K → K → ℕ
  unfolding range_partition_of
  range_partition p key = range_partition_of p.range_bounds p.num_partitions key

-- SetRangeBounds
pub set_range_bounds {ℓ} : {K : Type ℓ} → Option (List K) → RangePartitioner K → RangePartitioner K
set_range_bounds bounds p = record p { range_bounds = bounds }

-- PartitionIdPassthrough.GetPartition; only an int that is in range passes. A negative int is a
-- pattern from 2 ^ 63 on.
unfoldable pub passthrough_partition : ℕ → Key → ℕ
passthrough_partition num_partitions (int n) =
    if ltb n (2 ^ 63) then (if ltb n num_partitions then n else 0) else 0
passthrough_partition num_partitions _ = 0
