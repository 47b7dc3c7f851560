-- ===== src/Caches/Contents.antt =====
-- rdd.go: what computePartition yields, against what the RDD computes.
use go_spark.Prelude.{ℕ, ◌≡◌, ap, ◌∙◌, ◌&&◌, inl, inr, Bool-cases, Option-cases, some, List, arith}
use go_spark.Prelude.Maps.{pair_eq, pair_beq, pair_beq_iff, lookup, assign, lookup-assign}
use go_spark.Scheduler.{PartitionKey}
use go_spark.Caches.Cases.{
  persisted_in_distributed, persisted_in_cache, persisted_on_disk, persisted_nowhere,
  compute_partition-cases, disk_put_unencoded, disk_put_written, disk_put_failed,
}
use go_spark.Caches.{
  MemoryCache, DiskCache, FileSystem, Config, Context, Persisted, in_memory, on_disk, disk_put,
  note_cache_present, is_shared, from_distributed, from_cache, from_disk, put_cache,
  put_distributed, put_disk, keep, compute_persisted, compute_partition,
}

module _ {A B : Type 0} (f : FileSystem A B) (contents : PartitionKey → List A) where
  -- A cache holds what its keys stand for.
  abbrev pub HoldsContents : MemoryCache A → Type 0
  HoldsContents m =
      (key : PartitionKey) (records : List A) → lookup key m ≡ some records → records ≡ contents key

  -- And so do the files that can be decoded.
  abbrev pub DiskHolds : DiskCache B → Type 0
  DiskHolds m =
      (key : PartitionKey) (b : B) (records : List A)
      → lookup key m ≡ some b
      → f.decode b ≡ some records
      → records ≡ contents key

  pub record Coherent (c : Context A B) : Type 0 where
    pub in_cache : HoldsContents c.cache
    pub in_distributed : HoldsContents c.distributed_cache
    pub in_files : DiskHolds c.disk

  HoldsContents-assign :
      (k : PartitionKey) (m : MemoryCache A) (records : List A)
      → records ≡ contents k
      → HoldsContents m
      → HoldsContents (assign k records m)
  HoldsContents-assign k m records same h key found at =
      let entry = lookup-assign key k records m in
      elim (Bool-cases (pair_beq k key)) [
        | inl hit ↦
            let k_key : contents k ≡ contents key = ap contents ((pair_beq_iff k key).0 hit) in
            ground (arith, entry, at, hit, same, k_key)
        | inr miss ↦ h key found (ground (arith, entry, at, miss))
      ]

  -- What a write leaves in a file is decoded to the records that were written, if it is decoded.
  abbrev pub AreFaithful : Type 0
  AreFaithful =
      (records found : List A) (key : PartitionKey) (b left : B)
      → f.encode records ≡ some b
      → f.written key b ≡ some left
      → f.decode left ≡ some found
      → found ≡ records

  -- The records of a partition, in caches that hold what they should.
  abbrev pub Yields : PartitionKey → List A × Context A B → Type 0
  Yields key res = (res.0 ≡ contents key) × Coherent res.1

  module _ (faithful : AreFaithful) where
    DiskHolds-assign :
        (k : PartitionKey) (m : DiskCache B) (records : List A) (b left : B)
        → records ≡ contents k
        → f.encode records ≡ some b
        → f.written k b ≡ some left
        → DiskHolds m
        → DiskHolds (assign k left m)
    DiskHolds-assign k m records b left same enc wrote h key c found at dec =
        let entry = lookup-assign key k left m in
        elim (Bool-cases (pair_beq k key)) [
          | inl hit ↦
              let k_key : contents k ≡ contents key = ap contents ((pair_beq_iff k key).0 hit) in
              let this : left ≡ c = ground (arith, entry, at, hit) in
              faithful records found k b left enc wrote (ap f.decode this ∙ dec) ∙ same ∙ k_key
          | inr miss ↦ h key c found (ground (arith, entry, at, miss)) dec
        ]

    DiskHolds-disk_put :
        (k : PartitionKey) (m : DiskCache B) (records : List A)
        → records ≡ contents k
        → DiskHolds m
        → DiskHolds (disk_put f k records m)
    DiskHolds-disk_put k m records same h = elim (Option-cases (f.encode records)) [
      | inl fails ↦ rw (disk_put_unencoded f k records m fails) h
      | inr (b, enc) ↦ elim (Option-cases (f.written k b)) [
        | inl fails ↦ rw (disk_put_failed f k records b m enc fails) h
        | inr (left, wrote) ↦
            rw (disk_put_written f k records b left m enc wrote)
              (DiskHolds-assign k m records b left same enc wrote h)
      ]
    ]

    module _ (g : Config) (r : Persisted A) (idx : ℕ) where
      put_cache-Coherent :
          (records : List A) (c : Context A B)
          → records ≡ contents (r.id, idx)
          → Coherent c
          → Coherent (put_cache g f r idx records c)
      put_cache-Coherent records c same h =
          elim (Bool-cases (in_memory r.storage_level && g.has_cache)) [
            | inl puts ↦ rw puts (record {
              in_cache = HoldsContents-assign (r.id, idx) c.cache records same h.in_cache;
              in_distributed = h.in_distributed;
              in_files = h.in_files;
            })
            | inr skips ↦ rw skips h
          ]

      put_distributed-Coherent :
          (records : List A) (c : Context A B)
          → records ≡ contents (r.id, idx)
          → Coherent c
          → Coherent (put_distributed g f r idx records c)
      unfolding note_cache_present
      put_distributed-Coherent records c same h =
          elim (Bool-cases (in_memory r.storage_level && is_shared g f r)) [
            | inl puts ↦ rw puts (record {
              in_cache = h.in_cache;
              in_distributed =
                  HoldsContents-assign (r.id, idx) c.distributed_cache records same
                    h.in_distributed;
              in_files = h.in_files;
            })
            | inr skips ↦ rw skips h
          ]

      put_disk-Coherent :
          (records : List A) (c : Context A B)
          → records ≡ contents (r.id, idx)
          → Coherent c
          → Coherent (put_disk g f r idx records c)
      put_disk-Coherent records c same h =
          elim (Bool-cases (on_disk r.storage_level && g.has_disk)) [
            | inl puts ↦ rw puts (record {
              in_cache = h.in_cache;
              in_distributed = h.in_distributed;
              in_files = DiskHolds-disk_put (r.id, idx) c.disk records same h.in_files;
            })
            | inr skips ↦ rw skips h
          ]

      keep-Yields :
          (res : List A × Context A B)
          → Yields (r.id, idx) res
          → Yields (r.id, idx) (keep g f r idx res)
      keep-Yields (records, c) (same, h) = (
        same,
        put_disk-Coherent records _ same
            (put_distributed-Coherent records _ same (put_cache-Coherent records c same h)),
      )

      from_distributed-contents :
          (c : Context A B) (records : List A)
          → Coherent c
          → from_distributed g f r idx c ≡ some records
          → records ≡ contents (r.id, idx)
      from_distributed-contents c records h at =
          h.in_distributed (r.id, idx) records (ground (arith, at))

      from_cache-contents :
          (c : Context A B) (records : List A)
          → Coherent c
          → from_cache g f r idx c ≡ some records
          → records ≡ contents (r.id, idx)
      from_cache-contents c records h at = h.in_cache (r.id, idx) records (ground (arith, at))

      from_disk-contents :
          (c : Context A B) (records : List A)
          → Coherent c
          → from_disk g f r idx c ≡ some records
          → records ≡ contents (r.id, idx)
      from_disk-contents c records h at = elim (Option-cases (lookup (r.id, idx) c.disk)) [
        | inl absent ↦ absurd (ground (arith, at, absent))
        | inr (b, present) ↦ h.in_files (r.id, idx) b records present (ground (arith, at, present))
      ]

      module _ (compute : ℕ → Context A B → List A × Context A B)
          (computes : (c : Context A B) → Coherent c → Yields (r.id, idx) (compute idx c)) where
        compute_persisted-Yields :
            (c : Context A B)
            → Coherent c
            → Yields (r.id, idx) (compute_persisted g f r compute idx c)
        unfolding compute_persisted note_cache_present
        compute_persisted-Yields c h = elim (Option-cases (from_distributed g f r idx c)) [
          | inr (records, at) ↦ rw (persisted_in_distributed g f r compute idx c records at) (
            from_distributed-contents c records h at,
            record {
              in_cache = h.in_cache;
              in_distributed = h.in_distributed;
              in_files = h.in_files;
            },
          )
          | inl a ↦ elim (Option-cases (from_cache g f r idx c)) [
            | inr (records, at) ↦
                rw (persisted_in_cache g f r compute idx c records a at)
                  (from_cache-contents c records h at, h)
            | inl b ↦ elim (Option-cases (from_disk g f r idx c)) [
              | inr (records, at) ↦
                  let same = from_disk-contents c records h at in
                  rw (persisted_on_disk g f r compute idx c records a b at)
                    (same, put_cache-Coherent records c same h)
              | inl d ↦
                  rw (persisted_nowhere g f r compute idx c a b d)
                    (keep-Yields (compute idx c) (computes c h))
            ]
          ]
        ]

        -- If the caches of a context and the checkpoint hold what the RDDs compute, computing the
        -- partition does, and what a write leaves in a file is decoded to nothing else than what was
        -- written, computePartition yields what the RDD computes, whatever is persisted where, and
        -- the caches go on to hold it.
        pub compute_partition-Yields :
            ((records : ℕ → List A)
              → r.checkpoint ≡ some records
              → records idx ≡ contents (r.id, idx))
            → (c : Context A B) → Coherent c
            → Yields (r.id, idx) (compute_partition g f r compute idx c)
        unfolding compute_partition
        compute_partition-Yields saved c h = elim (Option-cases r.checkpoint) [
          | inr (records, at) ↦ rw at (saved records at, h)
          | inl a ↦ elim (compute_partition-cases g f r compute idx c a) [
            | inl (_, e) ↦ rw e (computes c h)
            | inr e ↦ rw e (compute_persisted-Yields c h)
          ]
        ]
