-- ===== src/Caches/Reports.antt =====
-- persist.go, context.go: what the notes of a task say of the cache of its worker, and what the
-- scheduler makes of them.
use go_spark.Prelude.{
  ℕ, ◌≡◌, ap, subst, ◌∙◌, Bool-cases, inl, inr, true, false, ◌&&◌, Option-cases, List, [], arith,
  ◌==◌, if◌then◌else◌,
}
use go_spark.Prelude.Maps.{
  pair_eq, pair_beq, pair_beq_iff, lookup-assign, contains, contains-remove,
}
use go_spark.Scheduler.{PartitionKey, remember_worker_cache, caches}
use go_spark.Scheduler.Workers.{caches-remember_worker_cache}
use go_spark.Caches.{
  MemoryCache, FileSystem, Config, Context, Persisted, has_partition, remove_rdd, keys_for_rdd,
  in_memory, on_disk, is_shared, note_cache_present, note_all_removed, from_distributed, from_cache,
  from_disk, put_cache, put_distributed, put_disk, compute_persisted, compute_partition, unpersist,
  clear_cache, clear_distributed, clear_disk,
}
use go_spark.Caches.Keys.{
  lookup-remove_rdd, contains-keys_for_rdd, contains-dropped, contains-touched,
  note_all_removed-caches,
}
use go_spark.Caches.Cases.{
  persisted_in_distributed, persisted_in_cache, persisted_on_disk, persisted_nowhere,
  compute_partition-cases,
}

module _ {A B : Type 0} (g : Config) (f : FileSystem A B) where
  -- What a task does to its context: it computes partitions, which computes others first, and it
  -- unpersists RDDs.
  pub data Runs : Context A B → Context A B → Type 0 where
    stop : {c : Context A B} → Runs c c
    unpersists : {c d : Context A B} (r : Persisted A) → Runs c d → Runs c (unpersist g r d).1
    computes :
        {c d : Context A B} (r : Persisted A) (compute : ℕ → Context A B → List A × Context A B)
        (idx : ℕ)
        → Runs c d
        → ((b : Context A B) → Runs b (compute idx b).1)
        → Runs c (compute_partition g f r compute idx d).1

-- The notes, from a distributed cache on: what is touched is there, what is dropped is not, and the rest
-- that was there still is.
pub record IsReported {A B : Type 0} (before : MemoryCache A) (c : Context A B) : Type 0 where
  pub touched :
      (key : PartitionKey)
      → contains key c.cache_touched ≡ true
      → has_partition key c.distributed_cache ≡ true
  pub dropped :
      (key : PartitionKey)
      → contains key c.cache_dropped ≡ true
      → has_partition key c.distributed_cache ≡ false
  pub others :
      (key : PartitionKey)
      → has_partition key before ≡ true
      → contains key c.cache_dropped ≡ false
      → has_partition key c.distributed_cache ≡ true

module _ {A B : Type 0} (g : Config) (f : FileSystem A B) (r : Persisted A)
    (before : MemoryCache A) where
  put_distributed-IsReported :
      (idx : ℕ) (records : List A) (c : Context A B)
      → IsReported before c
      → IsReported before (put_distributed g f r idx records c)
  unfolding note_cache_present
  put_distributed-IsReported idx records c h =
      elim (Bool-cases (in_memory r.storage_level && is_shared g f r)) [
        | inr skips ↦ rw skips h
        | inl puts ↦ rw puts (record {
          touched = λ key at. ground (
            arith,
            h.touched key,
            at,
            lookup-assign key (r.id, idx) records c.distributed_cache,
            contains-remove key (r.id, idx) c.cache_touched,
          );
          dropped = λ key at. ground (
            arith,
            h.dropped key,
            at,
            lookup-assign key (r.id, idx) records c.distributed_cache,
            contains-remove key (r.id, idx) c.cache_dropped,
          );
          others = λ key was at. ground (
            arith,
            h.others key was,
            at,
            lookup-assign key (r.id, idx) records c.distributed_cache,
            contains-remove key (r.id, idx) c.cache_dropped,
          );
        })
      ]

  note_cache_present-IsReported :
      (key : PartitionKey) (c : Context A B)
      → has_partition key c.distributed_cache ≡ true
      → IsReported before c
      → IsReported before (note_cache_present key c)
  unfolding note_cache_present
  note_cache_present-IsReported k c present h =
      let k_key : (key : PartitionKey)
          → pair_beq k key ≡ true
          → has_partition key c.distributed_cache ≡ true =
        λ key hit.
          subst (λ x. has_partition x c.distributed_cache ≡ true) ((pair_beq_iff k key).0 hit)
            present in
      record {
        touched = λ key at.
            ground (arith, h.touched key, at, k_key key, contains-remove key k c.cache_touched);
        dropped =
            λ key at. ground (arith, h.dropped key, at, contains-remove key k c.cache_dropped);
        others = λ key was at.
            ground (arith, h.others key was, at, k_key key, contains-remove key k c.cache_dropped);
      }

  clear_cache-IsReported :
      (id : ℕ) (c : Context A B) → IsReported before c → IsReported before (clear_cache g id c)
  clear_cache-IsReported id c h = elim (Bool-cases g.has_cache) [
    | inl clears ↦
        rw clears (record { touched = h.touched; dropped = h.dropped; others = h.others })
    | inr skips ↦ rw skips h
  ]

  clear_disk-IsReported :
      (id : ℕ) (c : Context A B) → IsReported before c → IsReported before (clear_disk g id c)
  clear_disk-IsReported id c h = elim (Bool-cases g.has_disk) [
    | inl clears ↦
        rw clears (record { touched = h.touched; dropped = h.dropped; others = h.others })
    | inr skips ↦ rw skips h
  ]

  clear_distributed-IsReported :
      (id : ℕ) (c : Context A B)
      → IsReported before c
      → IsReported before (clear_distributed g id c)
  clear_distributed-IsReported id c h =
      let keys = keys_for_rdd id c.distributed_cache in
      let noted = note_all_removed keys c in
      let same : noted.distributed_cache ≡ c.distributed_cache =
        (note_all_removed-caches keys c).1 in
      let present : (key : PartitionKey)
          → has_partition key (remove_rdd id noted.distributed_cache)
            ≡ (if key.0 == id then false else has_partition key c.distributed_cache) =
        λ key.
          ap (λ m. has_partition key (remove_rdd id m)) same
          ∙ ground (arith, lookup-remove_rdd id key c.distributed_cache) in
      elim (Bool-cases g.has_distributed) [
        | inr skips ↦ rw skips h
        | inl clears ↦ rw clears (record {
          touched = λ key at. ground (
            arith,
            at,
            h.touched key,
            present key,
            contains-keys_for_rdd id key c.distributed_cache,
            contains-touched key keys c,
          );
          dropped = λ key at. ground (
            arith,
            at,
            h.dropped key,
            present key,
            contains-keys_for_rdd id key c.distributed_cache,
            contains-dropped key keys c,
          );
          others = λ key was at. ground (
            arith,
            at,
            h.others key was,
            present key,
            contains-keys_for_rdd id key c.distributed_cache,
            contains-dropped key keys c,
          );
        })
      ]

  unpersist-IsReported :
      (c : Context A B) → IsReported before c → IsReported before (unpersist g r c).1
  unfolding unpersist
  unpersist-IsReported c h =
      clear_disk-IsReported r.id _
        (clear_distributed-IsReported r.id _ (clear_cache-IsReported r.id c h))

  put_cache-IsReported :
      (idx : ℕ) (records : List A) (c : Context A B)
      → IsReported before c
      → IsReported before (put_cache g f r idx records c)
  put_cache-IsReported idx records c h =
      elim (Bool-cases (in_memory r.storage_level && g.has_cache)) [
        | inl puts ↦
            rw puts (record { touched = h.touched; dropped = h.dropped; others = h.others })
        | inr skips ↦ rw skips h
      ]

  put_disk-IsReported :
      (idx : ℕ) (records : List A) (c : Context A B)
      → IsReported before c
      → IsReported before (put_disk g f r idx records c)
  put_disk-IsReported idx records c h = elim (Bool-cases (on_disk r.storage_level && g.has_disk)) [
    | inl puts ↦ rw puts (record { touched = h.touched; dropped = h.dropped; others = h.others })
    | inr skips ↦ rw skips h
  ]

  module _ (compute : ℕ → Context A B → List A × Context A B) (idx : ℕ)
      (keeps : (c : Context A B) → IsReported before c → IsReported before (compute idx c).1) where
    compute_persisted-IsReported :
        (c : Context A B)
        → IsReported before c
        → IsReported before (compute_persisted g f r compute idx c).1
    compute_persisted-IsReported c h = elim (Option-cases (from_distributed g f r idx c)) [
      | inr (records, at) ↦
          rw (persisted_in_distributed g f r compute idx c records at)
            (note_cache_present-IsReported (r.id, idx) c (ground (arith, at)) h)
      | inl a ↦ elim (Option-cases (from_cache g f r idx c)) [
        | inr (records, at) ↦ rw (persisted_in_cache g f r compute idx c records a at) h
        | inl b ↦ elim (Option-cases (from_disk g f r idx c)) [
          | inr (records, at) ↦
              rw (persisted_on_disk g f r compute idx c records a b at)
                (put_cache-IsReported idx records c h)
          | inl d ↦ rw (persisted_nowhere g f r compute idx c a b d) (
              put_disk-IsReported idx _ _
                (put_distributed-IsReported idx _ _ (put_cache-IsReported idx _ _ (keeps c h))))
        ]
      ]
    ]

    compute_partition-IsReported :
        (c : Context A B)
        → IsReported before c
        → IsReported before (compute_partition g f r compute idx c).1
    unfolding compute_partition
    compute_partition-IsReported c h = elim (Option-cases r.checkpoint) [
      | inr (records, at) ↦ rw at h
      | inl a ↦ elim (compute_partition-cases g f r compute idx c a) [
        | inl (_, e) ↦ rw e (keeps c h)
        | inr e ↦ rw e (compute_persisted-IsReported c h)
      ]
    ]

-- What is known of a partition after the report of a task of a worker: if it is in the cache of the
-- worker, it is there; if the task touched it, it is; and of the other workers what was known before.
abbrev pub IsKnown :
    {A B : Type 0} → ℕ → List (PartitionKey × List ℕ) → Context A B → PartitionKey → Type 0
IsKnown worker m d key =
    let report = remember_worker_cache worker d.cache_touched d.cache_dropped m in
    (caches worker key report ≡ true → has_partition key d.distributed_cache ≡ true)
    × (contains key d.cache_touched ≡ true → caches worker key report ≡ true)
    × ((other : ℕ) → (worker == other) ≡ false → caches other key report ≡ caches other key m)

module _ {A B : Type 0} (g : Config) (f : FileSystem A B) (before : MemoryCache A) where
  Runs-IsReported : {c d : Context A B} → Runs g f c d → IsReported before c → IsReported before d
  Runs-IsReported stop h = h
  Runs-IsReported (unpersists {d} r ran) h =
      unpersist-IsReported g f r before d (Runs-IsReported ran h)
  Runs-IsReported (computes {d} r compute idx ran inner) h =
      compute_partition-IsReported g f r before compute idx (λ b h'. Runs-IsReported (inner b) h') d
        (Runs-IsReported ran h)

  -- A task starts with the cache of its worker, and without notes.
  abbrev pub IsFresh : Context A B → Type 0
  IsFresh c = (c.distributed_cache ≡ before) × (c.cache_touched ≡ []) × (c.cache_dropped ≡ [])

  -- If the scheduler knows no partition in the cache of a worker that is not there, then, after a
  -- task of that worker, which computes and unpersists as it likes, and the report of its notes, it
  -- again knows none that is not there, it knows all that the task touched, and of the other workers
  -- what it did.
  pub remember_worker_cache-Runs :
      {c d : Context A B} (worker : ℕ) (m : List (PartitionKey × List ℕ))
      → IsFresh c
      → Runs g f c d
      → ((key : PartitionKey) → caches worker key m ≡ true → has_partition key before ≡ true)
      → (key : PartitionKey) → IsKnown worker m d key
  remember_worker_cache-Runs {c} {d} worker m (same, t, n) ran known key =
      let fresh : IsReported before c = record {
        touched = λ k at. absurd (ground (arith, at, t));
        dropped = λ k at. absurd (ground (arith, at, n));
        others = λ k was at. ap (has_partition k) same ∙ was;
      } in
      let after = Runs-IsReported ran fresh in
      (
        λ at. ground (
          arith,
          at,
          caches-remember_worker_cache worker worker key d.cache_touched d.cache_dropped m,
          after.touched key,
          after.others key,
          known key,
        ),
        λ at. ground (
          arith,
          at,
          caches-remember_worker_cache worker worker key d.cache_touched d.cache_dropped m,
        ),
        λ other apart. ground (
          arith,
          apart,
          caches-remember_worker_cache other worker key d.cache_touched d.cache_dropped m,
        ),
      )
