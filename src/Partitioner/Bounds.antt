-- ===== src/Partitioner/Bounds.antt =====
-- partitioner.go: the range of the answers of each GetPartition.
use go_spark.Prelude.{ℕ, zero, suc, ◌<◌, ◌≤◌, ◌≡◌, ◌%◌, ◌^◌, refl, Bool, some, arith}
use go_spark.Partitioner.{
  Key, remainder, hash_partition, range_partition, RangePartitioner, passthrough_partition, nil,
  int,
}

remainder-lt : (h n : ℕ) → 0 < n → (p : ℕ) × (remainder h n ≡ some p) × (p < n)
unfolding remainder
remainder-lt h zero pos = elim pos [ ]
remainder-lt h (suc n) pos = (h % suc n, refl, omega arith)

-- A hash partition of a positive number of partitions exists and is one of them.
pub hash_partition-lt :
    (n : ℕ) (key : Key) → 0 < n → (p : ℕ) × (hash_partition n key ≡ some p) × (p < n)
unfolding hash_partition
hash_partition-lt n nil h = (0, refl, h)
hash_partition-lt n _ h = remainder-lt _ n h

-- A range partition of a positive number of partitions is one of them, whatever the bounds.
pub range_partition-lt {ℓ} :
    {K : Type ℓ} (less : K → K → Bool) (p : RangePartitioner K) (key : K)
    → 0 < p.num_partitions
    → range_partition less p key < p.num_partitions
unfolding range_partition
range_partition-lt less p key h = ground arith

-- A passed partition of a positive number of partitions is one of them.
pub passthrough_partition-lt : (n : ℕ) (key : Key) → 0 < n → passthrough_partition n key < n
unfolding passthrough_partition
passthrough_partition-lt n (int k) h = ground arith
passthrough_partition-lt n _ h = h

-- An int key that is a partition is its own partition, for at most 2 ^ 63 partitions.
pub passthrough_partition_self :
    (n k : ℕ) → n ≤ 2 ^ 63 → k < n → passthrough_partition n (int k) ≡ k
unfolding passthrough_partition
passthrough_partition_self n k small h = ground arith
