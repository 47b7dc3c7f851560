-- ===== src/Tests/Caching.antt =====
-- A cached RDD, and one that doubles its records.
use go_spark.Prelude.{
  ℕ, zero, suc, ◌+◌, ◌≡◌, refl, ap, true, false, none, some, List, [], ◌∷◌, arith, map,
}
use go_spark.Prelude.Maps.{pair_eq}
use go_spark.Scheduler.{PartitionKey}
use go_spark.Caches.{
  storage_memory, storage_memory_and_disk, FileSystem, Config, Context, Persisted,
  compute_partition, unpersist, is_cached,
}
use go_spark.Caches.Contents.{AreFaithful, Coherent, Yields, compute_partition-Yields}
use go_spark.Caches.Once.{compute_partition_again}
use go_spark.Caches.Reports.{Runs, IsKnown, stop, unpersists, computes, remember_worker_cache-Runs}

abbrev files : FileSystem ℕ (List ℕ)
files = record {
  encode = λ records. some records;
  readable = λ key. true;
  decode = λ b. some b;
  written = λ key b. some b;
}

abbrev config : Config
config = record { has_cache = true; has_distributed = true; has_disk = true }

abbrev cached_rdd : Persisted ℕ
cached_rdd = record {
  id = 1;
  storage_level = storage_memory;
  across_tasks = true;
  checkpoint = none;
  partitions = 0 ∷ 1 ∷ [];
}

abbrev doubled_rdd : Persisted ℕ
doubled_rdd = record {
  id = 2;
  storage_level = storage_memory_and_disk;
  across_tasks = false;
  checkpoint = none;
  partitions = 0 ∷ 1 ∷ [];
}

abbrev contents : PartitionKey → List ℕ
contents (zero, idx) = []
contents (suc zero, idx) = idx ∷ []
contents (suc (suc n), idx) = (idx + idx) ∷ []

abbrev read_source : ℕ → Context ℕ (List ℕ) → List ℕ × Context ℕ (List ℕ)
read_source idx c = (idx ∷ [], c)

abbrev double : ℕ → Context ℕ (List ℕ) → List ℕ × Context ℕ (List ℕ)
double idx c =
    let (records, after) = compute_partition config files cached_rdd read_source idx c in
    (map (λ n. n + n) records, after)

abbrev empty : Context ℕ (List ℕ)
empty = record {
  cache = [];
  distributed_cache = [];
  disk = [];
  cache_touched = [];
  cache_dropped = [];
}

empty-Coherent : Coherent files contents empty
empty-Coherent = record {
  in_cache = λ key records at. cc;
  in_distributed = λ key records at. cc;
  in_files = λ key b records at dec. cc;
}

files-AreFaithful : AreFaithful files contents
files-AreFaithful records found key b left enc wrote dec = cc

read_source-Yields :
    (c : Context ℕ (List ℕ))
    → Coherent files contents c
    → Yields files contents (1, 1) (compute_partition config files cached_rdd read_source 1 c)
read_source-Yields c h =
    compute_partition-Yields files contents files-AreFaithful config cached_rdd 1 read_source
      (λ d k. (refl, k)) (λ records at. cc) c h

double-Yields :
    (c : Context ℕ (List ℕ)) → Coherent files contents c → Yields files contents (2, 1) (double 1 c)
double-Yields c h =
    let (same, after) = read_source-Yields c h in (ap (map (λ n. n + n)) same, after)

compute_partition-Yields_example :
    Yields files contents (2, 1) (compute_partition config files doubled_rdd double 1 empty)
compute_partition-Yields_example =
    compute_partition-Yields files contents files-AreFaithful config doubled_rdd 1 double
      double-Yields (λ records at. cc) empty empty-Coherent

-- Both partitions are in the memory of the context after they were computed.
abbrev after_both : Context ℕ (List ℕ)
after_both =
    (compute_partition config files doubled_rdd double 1
      (compute_partition config files doubled_rdd double 0 empty).1).1

both_cached : is_cached config files doubled_rdd after_both ≡ true
unfolding is_cached compute_partition
both_cached = refl

unpersisted : is_cached config files doubled_rdd (unpersist config doubled_rdd after_both).1 ≡ false
unfolding is_cached compute_partition unpersist
unpersisted = refl

compute_partition_again_example :
    (compute_partition config files doubled_rdd
      (λ idx c. ([], c))
      1
      (compute_partition config files doubled_rdd double 1 empty).1).0
    ≡ (compute_partition config files doubled_rdd double 1 empty).0
compute_partition_again_example =
    compute_partition_again config files doubled_rdd 1 double (λ idx c. ([], c)) empty refl

-- A task computes a partition of the second RDD, and the first is unpersisted.
abbrev after_task : Context ℕ (List ℕ)
after_task =
    (unpersist config cached_rdd (compute_partition config files doubled_rdd double 1 empty).1).1

task-Runs : Runs config files empty after_task
task-Runs =
    unpersists cached_rdd
      (computes doubled_rdd double 1 stop (λ b. computes cached_rdd read_source 1 stop (λ d. stop)))

remember_worker_cache-Runs_example : IsKnown 0 (((1, 0), 3 ∷ []) ∷ []) after_task (1, 1)
remember_worker_cache-Runs_example =
    remember_worker_cache-Runs config files [] 0 (((1, 0), 3 ∷ []) ∷ []) (refl, refl, refl)
      task-Runs (λ key at. absurd (ground (arith, at))) (1, 1)
