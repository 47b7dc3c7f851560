-- ===== src/Caches/Keys.antt =====
-- persist.go: the keys of an RDD in a cache, and the notes of Unpersist.
use go_spark.Prelude.{
  ℕ, ◌≡◌, refl, not, ◌&&◌, ◌||◌, none, List, [], ◌∷◌, arith, ◌==◌, if◌then◌else◌,
}
use go_spark.Prelude.Maps.{pair_eq, pair_beq_iff, lookup, contains, contains-remove}
use go_spark.Scheduler.{PartitionKey}
use go_spark.Caches.{
  Context, has_partition, remove_rdd, keys_for_rdd, note_cache_removed, note_all_removed,
}

module _ {V : Type 0} where
  pub lookup-remove_rdd :
      (rdd_id : ℕ) (key : PartitionKey) (m : List (PartitionKey × V))
      → lookup key (remove_rdd rdd_id m) ≡ (if key.0 == rdd_id then none else lookup key m)
  unfolding remove_rdd
  lookup-remove_rdd rdd_id key [] = ground arith
  lookup-remove_rdd rdd_id key ((k, v) ∷ m) =
      ground (arith, lookup-remove_rdd rdd_id key m, pair_beq_iff k key)

  pub contains-keys_for_rdd :
      (rdd_id : ℕ) (key : PartitionKey) (m : List (PartitionKey × V))
      → contains key (keys_for_rdd rdd_id m) ≡ (key.0 == rdd_id && has_partition key m)
  unfolding keys_for_rdd
  contains-keys_for_rdd rdd_id key [] = ground arith
  contains-keys_for_rdd rdd_id key ((k, v) ∷ m) =
      ground (arith, contains-keys_for_rdd rdd_id key m, pair_beq_iff k key)

module _ {A B : Type 0} where
  -- A key that was removed is noted as dropped.
  pub contains-dropped :
      (key : PartitionKey) (keys : List PartitionKey) (c : Context A B)
      → contains key (note_all_removed keys c).cache_dropped
        ≡ (contains key keys || contains key c.cache_dropped)
  unfolding note_all_removed
  contains-dropped key [] c = refl
  contains-dropped key (k ∷ keys) c = ground (
    arith,
    contains-dropped key keys (note_cache_removed k c),
    contains-remove key k c.cache_dropped,
  )

  -- And not as touched.
  pub contains-touched :
      (key : PartitionKey) (keys : List PartitionKey) (c : Context A B)
      → contains key (note_all_removed keys c).cache_touched
        ≡ (not (contains key keys) && contains key c.cache_touched)
  unfolding note_all_removed
  contains-touched key [] c = refl
  contains-touched key (k ∷ keys) c = ground (
    arith,
    contains-touched key keys (note_cache_removed k c),
    contains-remove key k c.cache_touched,
  )

  -- The caches stay as they are.
  pub note_all_removed-caches :
      (keys : List PartitionKey) (c : Context A B)
      → ((note_all_removed keys c).cache ≡ c.cache)
        × ((note_all_removed keys c).distributed_cache ≡ c.distributed_cache)
        × ((note_all_removed keys c).disk ≡ c.disk)
  unfolding note_all_removed
  note_all_removed-caches [] c = (refl, refl, refl)
  note_all_removed-caches (k ∷ keys) c = note_all_removed-caches keys (note_cache_removed k c)
