-- ===== src/Caches.antt =====
-- persist.go, and the parts of rdd.go and context.go that persist partitions: the memory cache of a context, the
-- cache that a worker keeps across tasks, and the files on disk. An iterator is the list of the records that
-- it yields, and the state of a context is passed on by what computes a partition.
pub mod Keys
pub mod Cases
pub mod Contents
pub mod Once
pub mod Reports
use go_spark.Prelude.{
  ℕ, Bool, true, false, not, ◌&&◌, ◌||◌, Option, none, some, List, [], ◌∷◌, ◌==◌, if◌then◌else◌,
}
use go_spark.Prelude.Maps.{pair_eq, lookup, delete, assign, remove}
use go_spark.Scheduler.{PartitionKey}

pub data StorageLevel : Type 0 where
  storage_none storage_memory storage_disk storage_memory_and_disk : StorageLevel

-- A memoryCache; a record is of any type.
abbrev pub MemoryCache : Type 0 → Type 0
MemoryCache A = List (PartitionKey × List A)

-- The files of a diskCache by what their names hold.
abbrev pub DiskCache : Type 0 → Type 0
DiskCache B = List (PartitionKey × B)

-- What gob and the file system do: the bytes of records, whether a file can be read, the records of
-- bytes, and what a write leaves in its file, if it can be opened.
pub record FileSystem (A B : Type 0) : Type 0 where
  pub encode : List A → Option B
  pub readable : PartitionKey → Bool
  pub decode : B → Option (List A)
  pub written : PartitionKey → B → Option B

-- Which caches of a Context are not nil.
pub record Config : Type 0 where
  pub has_cache : Bool
  pub has_distributed : Bool
  pub has_disk : Bool

-- The caches of a Context, and its notes for the driver.
pub record Context (A B : Type 0) : Type 0 where
  pub cache : MemoryCache A
  pub distributed_cache : MemoryCache A
  pub disk : DiskCache B
  pub cache_touched : List PartitionKey
  pub cache_dropped : List PartitionKey

abbrev pub is_present {ℓ} : {A : Type ℓ} → Option A → Bool
is_present none = false
is_present (some a) = true

module _ {V : Type 0} where
  -- has of a memoryCache and of a diskCache
  abbrev pub has_partition : PartitionKey → List (PartitionKey × V) → Bool
  has_partition key m = is_present (lookup key m)

  -- removeRDD of a memoryCache and of a diskCache
  unfoldable pub remove_rdd : ℕ → List (PartitionKey × V) → List (PartitionKey × V)
  remove_rdd rdd_id [] = []
  remove_rdd rdd_id ((key, v) ∷ m) =
      let rest = remove_rdd rdd_id m in if key.0 == rdd_id then rest else (key, v) ∷ rest

  -- keysForRDD
  unfoldable pub keys_for_rdd : ℕ → List (PartitionKey × V) → List PartitionKey
  keys_for_rdd rdd_id [] = []
  keys_for_rdd rdd_id ((key, v) ∷ m) =
      let rest = keys_for_rdd rdd_id m in if key.0 == rdd_id then key ∷ rest else rest

-- The fields of an RDD that persist it; `across_tasks` is what cacheAcrossTasks gives, and `checkpoint`
-- what checkpointIterator yields, once there is one.
pub record Persisted (A : Type 0) : Type 0 where
  pub id : ℕ
  pub storage_level : StorageLevel
  pub across_tasks : Bool
  pub checkpoint : Option (ℕ → List A)
  pub partitions : List ℕ

abbrev pub in_memory : StorageLevel → Bool
in_memory storage_memory = true
in_memory storage_memory_and_disk = true
in_memory _ = false

abbrev pub on_disk : StorageLevel → Bool
on_disk storage_disk = true
on_disk storage_memory_and_disk = true
on_disk _ = false

module _ {A : Type 0} where
  -- Persist
  abbrev pub persist : StorageLevel → Persisted A → Persisted A
  persist level r = record r { storage_level = level }

  -- persistOutput
  abbrev pub persist_output : Persisted A → Persisted A
  persist_output r = elim r.storage_level [
    | storage_none ↦ record r { storage_level = storage_memory }
    | _ ↦ r
  ]

module _ {A B : Type 0} where
  -- get and put of a diskCache
  abbrev pub disk_get : FileSystem A B → PartitionKey → DiskCache B → Option (List A)
  disk_get f key disk =
      if f.readable key then elim (lookup key disk) [ none ↦ none | some b ↦ f.decode b ] else none

  abbrev pub disk_put : FileSystem A B → PartitionKey → List A → DiskCache B → DiskCache B
  disk_put f key records disk = elim (f.encode records) [
    | none ↦ disk
    | some b ↦ elim (f.written key b) [ none ↦ disk | some left ↦ assign key left disk ]
  ]

  -- noteCachePresent
  unfoldable pub note_cache_present : PartitionKey → Context A B → Context A B
  unfolding remove
  note_cache_present key c = record c {
    cache_touched = key ∷ remove key c.cache_touched;
    cache_dropped = remove key c.cache_dropped;
  }

  -- noteCacheRemoved
  unfoldable pub note_cache_removed : PartitionKey → Context A B → Context A B
  unfolding remove
  note_cache_removed key c = record c {
    cache_dropped = key ∷ remove key c.cache_dropped;
    cache_touched = remove key c.cache_touched;
  }

  -- The loop of Unpersist over the keys of the distributed cache.
  unfoldable pub note_all_removed : List PartitionKey → Context A B → Context A B
  unfolding note_cache_removed
  note_all_removed [] c = c
  note_all_removed (key ∷ keys) c = note_all_removed keys (note_cache_removed key c)

  module _ (g : Config) where
    -- The three statements of Unpersist on the caches.
    abbrev pub clear_cache : ℕ → Context A B → Context A B
    clear_cache id c = if g.has_cache then record c { cache = remove_rdd id c.cache } else c

    abbrev pub clear_distributed : ℕ → Context A B → Context A B
    clear_distributed id c =
        let noted = note_all_removed (keys_for_rdd id c.distributed_cache) c in
        if g.has_distributed
        then record noted { distributed_cache = remove_rdd id noted.distributed_cache }
        else c

    abbrev pub clear_disk : ℕ → Context A B → Context A B
    clear_disk id c = if g.has_disk then record c { disk = remove_rdd id c.disk } else c

    -- Unpersist
    unfoldable pub unpersist : Persisted A → Context A B → Persisted A × Context A B
    unfolding remove_rdd keys_for_rdd note_all_removed
    unpersist r c =
        (persist storage_none r, clear_disk r.id (clear_distributed r.id (clear_cache r.id c)))

    module _ (f : FileSystem A B) (r : Persisted A) where
      abbrev pub cache_key : ℕ → PartitionKey
      cache_key idx = (r.id, idx)

      -- The variable `shared` of computePartition, and what the level allows.
      abbrev pub is_shared : Bool
      is_shared = g.has_distributed && r.across_tasks

      -- The three reads of computePartition.
      abbrev pub from_distributed : ℕ → Context A B → Option (List A)
      from_distributed idx c =
          if in_memory r.storage_level && is_shared
          then lookup (cache_key idx) c.distributed_cache
          else none

      abbrev pub from_cache : ℕ → Context A B → Option (List A)
      from_cache idx c =
          if in_memory r.storage_level && g.has_cache then lookup (cache_key idx) c.cache else none

      abbrev pub from_disk : ℕ → Context A B → Option (List A)
      from_disk idx c =
          if on_disk r.storage_level && g.has_disk then disk_get f (cache_key idx) c.disk else none

      -- The three writes of what was computed.
      abbrev pub put_cache : ℕ → List A → Context A B → Context A B
      put_cache idx records c =
          if in_memory r.storage_level && g.has_cache
          then record c { cache = assign (cache_key idx) records c.cache }
          else c

      abbrev pub put_distributed : ℕ → List A → Context A B → Context A B
      put_distributed idx records c =
          if in_memory r.storage_level && is_shared
          then note_cache_present (cache_key idx)
              (record c { distributed_cache = assign (cache_key idx) records c.distributed_cache })
          else c

      abbrev pub put_disk : ℕ → List A → Context A B → Context A B
      put_disk idx records c =
          if on_disk r.storage_level && g.has_disk
          then record c { disk = disk_put f (cache_key idx) records c.disk }
          else c

      abbrev pub keep : ℕ → List A × Context A B → List A × Context A B
      keep idx (records, c) =
          (records, put_disk idx records (put_distributed idx records (put_cache idx records c)))

      -- computePartition from the check of the level on.
      unfoldable pub compute_persisted :
          (ℕ → Context A B → List A × Context A B) → ℕ → Context A B → List A × Context A B
      unfolding note_cache_present assign
      compute_persisted compute idx c = elim (from_distributed idx c) [
        | some records ↦ (records, note_cache_present (cache_key idx) c)
        | none ↦ elim (from_cache idx c) [
          | some records ↦ (records, c)
          | none ↦ elim (from_disk idx c) [
            | some records ↦ (records, put_cache idx records c)
            | none ↦ keep idx (compute idx c)
          ]
        ]
      ]

      -- computePartition
      unfoldable pub compute_partition :
          (ℕ → Context A B → List A × Context A B) → ℕ → Context A B → List A × Context A B
      unfolding compute_persisted
      compute_partition compute idx c = elim r.checkpoint [
        | some records ↦ (records idx, c)
        | none ↦ elim r.storage_level [
          | storage_none ↦ compute idx c
          | _ ↦ compute_persisted compute idx c
        ]
      ]

      -- The body of the loop of IsCached.
      abbrev pub is_partition_cached : Context A B → ℕ → Bool
      is_partition_cached c idx =
          let mem =
            g.has_cache && has_partition (cache_key idx) c.cache
            || is_shared && has_partition (cache_key idx) c.distributed_cache in
          let disk = g.has_disk && has_partition (cache_key idx) c.disk in
          elim r.storage_level [
            | storage_memory ↦ mem
            | storage_disk ↦ disk
            | storage_memory_and_disk ↦ mem || disk
            | storage_none ↦ false
          ]

      abbrev pub are_cached : Context A B → List ℕ → Bool
      are_cached c [] = true
      are_cached c (idx ∷ partitions) = is_partition_cached c idx && are_cached c partitions

      -- IsCached
      unfoldable pub is_cached : Context A B → Bool
      is_cached c = elim r.storage_level [ storage_none ↦ false | _ ↦ are_cached c r.partitions ]
