-- ===== src/Caches/Cases.antt =====
-- rdd.go: the ways through computePartition.
use go_spark.Prelude.{ℕ, ◌≡◌, refl, ◌⊎◌, inl, inr, ◌&&◌, if◌then◌else◌, none, some, List, arith}
use go_spark.Prelude.Maps.{pair_eq, assign}
use go_spark.Scheduler.{PartitionKey}
use go_spark.Caches.{
  StorageLevel, storage_memory, storage_disk, storage_memory_and_disk, storage_none, FileSystem,
  Config, Context, Persisted, DiskCache, disk_put, note_cache_present, from_distributed, from_cache,
  from_disk, put_cache, put_distributed, put_disk, in_memory, is_shared, keep, compute_persisted,
  compute_partition,
}

module _ {A B : Type 0} (g : Config) (f : FileSystem A B) (r : Persisted A)
    (compute : ℕ → Context A B → List A × Context A B) (idx : ℕ) (c : Context A B) where
  pub persisted_in_distributed :
      (records : List A)
      → from_distributed g f r idx c ≡ some records
      → compute_persisted g f r compute idx c ≡ (records, note_cache_present (r.id, idx) c)
  unfolding compute_persisted
  persisted_in_distributed records at = ground (arith, at)

  pub persisted_in_cache :
      (records : List A)
      → from_distributed g f r idx c ≡ none
      → from_cache g f r idx c ≡ some records
      → compute_persisted g f r compute idx c ≡ (records, c)
  unfolding compute_persisted
  persisted_in_cache records a at = ground (arith, a, at)

  pub persisted_on_disk :
      (records : List A)
      → from_distributed g f r idx c ≡ none
      → from_cache g f r idx c ≡ none
      → from_disk g f r idx c ≡ some records
      → compute_persisted g f r compute idx c ≡ (records, put_cache g f r idx records c)
  unfolding compute_persisted
  persisted_on_disk records a b at = ground (arith, a, b, at)

  pub persisted_nowhere :
      from_distributed g f r idx c ≡ none
      → from_cache g f r idx c ≡ none
      → from_disk g f r idx c ≡ none
      → compute_persisted g f r compute idx c ≡ keep g f r idx (compute idx c)
  unfolding compute_persisted
  persisted_nowhere a b d = ground (arith, a, b, d)

  -- Without a checkpoint, the level decides.
  abbrev ByLevel : Type 0
  ByLevel =
      ((r.storage_level ≡ storage_none) × (compute_partition g f r compute idx c ≡ compute idx c))
      ⊎ (compute_partition g f r compute idx c ≡ compute_persisted g f r compute idx c)

  by_level : (l : StorageLevel) → r.storage_level ≡ l → r.checkpoint ≡ none → ByLevel
  unfolding compute_partition
  by_level storage_none e absent = inl (e, ground (arith, e, absent))
  by_level storage_memory e absent = inr (ground (arith, e, absent))
  by_level storage_disk e absent = inr (ground (arith, e, absent))
  by_level storage_memory_and_disk e absent = inr (ground (arith, e, absent))

  pub compute_partition-cases : r.checkpoint ≡ none → ByLevel
  compute_partition-cases absent = by_level r.storage_level refl absent

-- What the writes change.
module _ {A B : Type 0} (g : Config) (f : FileSystem A B) (r : Persisted A) (idx : ℕ)
    (records : List A) (c : Context A B) where
  pub put_cache-distributed :
      (put_cache g f r idx records c).distributed_cache ≡ c.distributed_cache
  put_cache-distributed = ground arith

  pub put_cache-cache : (put_cache g f r idx records c).cache ≡ (
      if in_memory r.storage_level && g.has_cache
      then assign (r.id, idx) records c.cache
      else c.cache)
  put_cache-cache = ground arith

  pub put_cache-disk : (put_cache g f r idx records c).disk ≡ c.disk
  put_cache-disk = ground arith

  pub put_distributed-distributed : (put_distributed g f r idx records c).distributed_cache ≡ (
      if in_memory r.storage_level && is_shared g f r
      then assign (r.id, idx) records c.distributed_cache
      else c.distributed_cache)
  unfolding note_cache_present
  put_distributed-distributed = ground arith

  pub put_distributed-cache : (put_distributed g f r idx records c).cache ≡ c.cache
  unfolding note_cache_present
  put_distributed-cache = ground arith

  pub put_disk-distributed : (put_disk g f r idx records c).distributed_cache ≡ c.distributed_cache
  put_disk-distributed = ground arith

  pub put_disk-cache : (put_disk g f r idx records c).cache ≡ c.cache
  put_disk-cache = ground arith

module _ {A B : Type 0} (g : Config) (f : FileSystem A B) (r : Persisted A) (idx : ℕ)
    (records : List A) (c : Context A B) where
  abbrev kept_cache : Context A B
  kept_cache = put_cache g f r idx records c

  abbrev kept_distributed : Context A B
  kept_distributed = put_distributed g f r idx records kept_cache

  pub keep-distributed : (keep g f r idx (records, c)).1.distributed_cache ≡ (
      if in_memory r.storage_level && is_shared g f r
      then assign (r.id, idx) records c.distributed_cache
      else c.distributed_cache)
  keep-distributed = ground (
    arith,
    put_disk-distributed g f r idx records kept_distributed,
    put_distributed-distributed g f r idx records kept_cache,
    put_cache-distributed g f r idx records c,
  )

  pub keep-cache : (keep g f r idx (records, c)).1.cache ≡ (
      if in_memory r.storage_level && g.has_cache
      then assign (r.id, idx) records c.cache
      else c.cache)
  keep-cache = ground (
    arith,
    put_disk-cache g f r idx records kept_distributed,
    put_distributed-cache g f r idx records kept_cache,
    put_cache-cache g f r idx records c,
  )

module _ {A B : Type 0} (f : FileSystem A B) where
  pub disk_put_unencoded :
      (key : PartitionKey) (records : List A) (m : DiskCache B)
      → f.encode records ≡ none
      → disk_put f key records m ≡ m
  disk_put_unencoded key records m enc = ground (arith, enc)

  pub disk_put_written :
      (key : PartitionKey) (records : List A) (b left : B) (m : DiskCache B)
      → f.encode records ≡ some b
      → f.written key b ≡ some left
      → disk_put f key records m ≡ assign key left m
  disk_put_written key records b left m enc wrote = ground (arith, enc, wrote)

  pub disk_put_failed :
      (key : PartitionKey) (records : List A) (b : B) (m : DiskCache B)
      → f.encode records ≡ some b
      → f.written key b ≡ none
      → disk_put f key records m ≡ m
  disk_put_failed key records b m enc wrote = ground (arith, enc, wrote)
