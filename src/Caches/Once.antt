-- ===== src/Caches/Once.antt =====
-- rdd.go: a partition that is kept in memory is computed once.
use go_spark.Prelude.{
  ℕ, ◌≡◌, refl, ap, ◌∙◌, Bool-cases, ◌⊎◌, inl, inr, true, ◌&&◌, ◌||◌, Option-cases, none, some,
  List, arith,
}
use go_spark.Prelude.Maps.{pair_eq, pair_beq, pair_beq_iff, lookup-assign}
use go_spark.Caches.{
  FileSystem, Config, Context, Persisted, in_memory, note_cache_present, is_shared,
  from_distributed, from_cache, from_disk, put_cache, keep, compute_persisted, compute_partition,
}
use go_spark.Caches.Cases.{
  persisted_in_distributed, persisted_in_cache, persisted_on_disk, persisted_nowhere,
  compute_partition-cases, put_cache-cache, put_cache-disk, put_cache-distributed, keep-cache,
  keep-distributed,
}

module _ {A B : Type 0} (g : Config) (f : FileSystem A B) (r : Persisted A) (idx : ℕ) where
  -- The first read that finds something finds these records.
  abbrev Finds : Context A B → List A → Type 0
  Finds c records =
      (from_distributed g f r idx c ≡ some records)
      ⊎ ((from_distributed g f r idx c ≡ none)
          × ((from_cache g f r idx c ≡ some records)
              ⊎ ((from_cache g f r idx c ≡ none) × (from_disk g f r idx c ≡ some records))))

  -- Whether the partition is kept in one of the caches in memory.
  abbrev pub IsKept : Type 0
  IsKept = in_memory r.storage_level && (g.has_cache || is_shared g f r) ≡ true

  Finds-compute :
      (compute : ℕ → Context A B → List A × Context A B) (c : Context A B) (records : List A)
      → Finds c records
      → (compute_persisted g f r compute idx c).0 ≡ records
  Finds-compute compute c records (inl at) =
      ap (λ p. p.0) (persisted_in_distributed g f r compute idx c records at)
  Finds-compute compute c records (inr (a, inl at)) =
      ap (λ p. p.0) (persisted_in_cache g f r compute idx c records a at)
  Finds-compute compute c records (inr (a, inr (b, at))) =
      ap (λ p. p.0) (persisted_on_disk g f r compute idx c records a b at)

  Finds-put_cache :
      (c : Context A B) (records : List A)
      → IsKept
      → from_distributed g f r idx c ≡ none
      → from_cache g f r idx c ≡ none
      → from_disk g f r idx c ≡ some records
      → Finds (put_cache g f r idx records c) records
  Finds-put_cache c records kept a b at =
      let entry = lookup-assign (r.id, idx) (r.id, idx) records c.cache in
      let same : pair_beq (r.id, idx) (r.id, idx) ≡ true =
        ground (arith, pair_beq_iff (r.id, idx) (r.id, idx)) in
      let away : from_distributed g f r idx (put_cache g f r idx records c) ≡ none =
        ground (arith, a, put_cache-distributed g f r idx records c) in
      elim (Bool-cases g.has_cache) [
        | inl some_cache ↦ inr (
          away,
          inl (ground (arith, some_cache, kept, entry, same, put_cache-cache g f r idx records c)),
        )
        | inr no_cache ↦ inr (
          away,
          inr (ground (arith, no_cache), ground (arith, at, put_cache-disk g f r idx records c)),
        )
      ]

  Finds-keep : (res : List A × Context A B) → IsKept → Finds (keep g f r idx res).1 res.0
  Finds-keep (records, c) kept =
      let same : pair_beq (r.id, idx) (r.id, idx) ≡ true =
        ground (arith, pair_beq_iff (r.id, idx) (r.id, idx)) in
      elim (Bool-cases (is_shared g f r)) [
        | inl shared ↦ inl (
            ground (
              arith,
              kept,
              shared,
              lookup-assign (r.id, idx) (r.id, idx) records c.distributed_cache,
              same,
              keep-distributed g f r idx records c,
            ))
        | inr alone ↦ inr (
          ground (arith, alone),
          inl (
              ground (
                arith,
                kept,
                alone,
                lookup-assign (r.id, idx) (r.id, idx) records c.cache,
                same,
                keep-cache g f r idx records c,
              )),
        )
      ]

  compute_persisted-Finds :
      (compute : ℕ → Context A B → List A × Context A B) (c : Context A B)
      → IsKept
      → Finds (compute_persisted g f r compute idx c).1 (compute_persisted g f r compute idx c).0
  unfolding note_cache_present
  compute_persisted-Finds compute c kept = elim (Option-cases (from_distributed g f r idx c)) [
    | inr (records, at) ↦ rw (persisted_in_distributed g f r compute idx c records at) (inl at)
    | inl a ↦ elim (Option-cases (from_cache g f r idx c)) [
      | inr (records, at) ↦
          rw (persisted_in_cache g f r compute idx c records a at) (inr (a, inl at))
      | inl b ↦ elim (Option-cases (from_disk g f r idx c)) [
        | inr (records, at) ↦
            rw (persisted_on_disk g f r compute idx c records a b at)
              (Finds-put_cache c records kept a b at)
        | inl d ↦ rw (persisted_nowhere g f r compute idx c a b d) (Finds-keep (compute idx c) kept)
      ]
    ]
  ]

  -- A partition of an RDD that is kept in memory, in a context that has a cache for it, is computed
  -- once: whatever would compute it later, a second call yields what the first one did.
  pub compute_partition_again :
      (compute later : ℕ → Context A B → List A × Context A B) (c : Context A B)
      → IsKept
      → (compute_partition g f r later idx (compute_partition g f r compute idx c).1).0
        ≡ (compute_partition g f r compute idx c).0
  unfolding compute_partition
  compute_partition_again compute later c kept = elim (Option-cases r.checkpoint) [
    | inr (records, at) ↦ rw at refl
    | inl a ↦ elim (compute_partition-cases g f r compute idx c a) [
      | inl (level, _) ↦ absurd (ground (arith, level, kept))
      | inr e ↦
          elim (compute_partition-cases g f r later idx (compute_partition g f r compute idx c).1
            a) [
              | inl (level, _) ↦ absurd (ground (arith, level, kept))
              | inr e' ↦
                  let found : Finds (compute_partition g f r compute idx c).1
                      (compute_partition g f r compute idx c).0 =
                    rw e (compute_persisted-Finds compute c kept) in
                  ap (λ p. p.0) e' ∙ Finds-compute later _ _ found
            ]
    ]
  ]
