-- ===== src/LocalShuffle/Roundtrip.antt =====
-- shuffle.go: what a reduce task of a local shuffle reads, against the inputs of its map tasks.
use go_spark.Prelude.{
  ltb, ℕ, zero, suc, ◌+◌, ◌<◌, ◌≡◌, refl, sym, ap, ◌∙◌, Bool-cases, inl, inr, Option-cases, none,
  some, List, [], ◌∷◌, ◌++◌, arith, ◌==◌, if◌then◌else◌, length, map, select, append_assoc,
  append-nil,
}
use go_spark.Prelude.Maps.{nat_eq, lookup, assign, lookup-assign}
use go_spark.LocalShuffle.{
  Buckets, Shuffles, write_blocks, read_from, read_blocks, blocks_of, write_map_output,
  read_reduce_output, bucket_of, fill, add_empty, write_shuffle_map_output, run_maps,
}

module _ {A : Type 0} (partition : A → ℕ) where
  -- The records of a reducer.
  abbrev pub of_reducer : ℕ → List A → List A
  of_reducer rid pairs = select (λ a. partition a == rid) pairs

  bucket_of-fill :
      (rid : ℕ) (pairs : List A) (buckets : Buckets A)
      → bucket_of rid (fill partition pairs buckets) ≡ bucket_of rid buckets ++ of_reducer rid pairs
  unfolding fill
  bucket_of-fill rid [] buckets = sym (append-nil (bucket_of rid buckets))
  bucket_of-fill rid (a ∷ pairs) buckets =
      let at =
        lookup-assign rid (partition a) (bucket_of (partition a) buckets ++ a ∷ []) buckets in
      elim (Bool-cases (partition a == rid)) [
        | inl hit ↦
            let same : partition a ≡ rid = ground (arith, hit) in
            let first : bucket_of rid
                  (assign (partition a) (bucket_of (partition a) buckets ++ a ∷ []) buckets)
                ≡ bucket_of rid buckets ++ a ∷ [] =
              ground (arith, at, hit, same, ap (λ k. bucket_of k buckets) same) in
            rw hit (
              bucket_of-fill rid pairs _
              ∙ ap (λ l. l ++ of_reducer rid pairs) first
              ∙ append_assoc (bucket_of rid buckets) (a ∷ []) (of_reducer rid pairs))
        | inr miss ↦
            let first : bucket_of rid
                  (assign (partition a) (bucket_of (partition a) buckets ++ a ∷ []) buckets)
                ≡ bucket_of rid buckets =
              ground (arith, at, miss) in
            rw miss (bucket_of-fill rid pairs _ ∙ ap (λ l. l ++ of_reducer rid pairs) first)
      ]

  lookup-add_empty :
      (rid n : ℕ) (buckets : Buckets A)
      → lookup rid (add_empty n buckets) ≡ elim (lookup rid buckets) [
        | some records ↦ some records
        | none ↦ if ltb rid n then some [] else none
      ]
  unfolding add_empty
  lookup-add_empty rid zero buckets = ground arith
  lookup-add_empty rid (suc n) buckets = elim (Option-cases (lookup n (add_empty n buckets))) [
    | inl absent ↦ ground (
      arith,
      absent,
      lookup-add_empty rid n buckets,
      lookup-add_empty n n buckets,
      lookup-assign rid n [] (add_empty n buckets),
    )
    | inr (records, present) ↦
        ground (arith, present, lookup-add_empty rid n buckets, lookup-add_empty n n buckets)
  ]

  -- What a map task writes.
  abbrev written : ℕ → List A → Buckets A
  written n pairs = add_empty n (fill partition pairs [])

  lookup-written :
      (rid n : ℕ) (pairs : List A)
      → rid < n
      → lookup rid (written n pairs) ≡ some (of_reducer rid pairs)
  lookup-written rid n pairs lt =
      ground
        (arith, lookup-add_empty rid n (fill partition pairs []), bucket_of-fill rid pairs [], lt)

  module _ (n sid : ℕ) where
    blocks_of-write :
        (map_id : ℕ) (pairs : List A) (m : Shuffles A)
        → blocks_of sid (write_shuffle_map_output partition n sid map_id pairs m)
          ≡ assign map_id (written n pairs) (blocks_of sid m)
    unfolding write_shuffle_map_output write_map_output write_blocks
    blocks_of-write map_id pairs m =
        ground (arith, lookup-assign sid sid (assign map_id (written n pairs) (blocks_of sid m)) m)

    -- the maps that come later leave the blocks of the earlier ones
    run_maps-earlier :
        (q map_id : ℕ) (inputs : List (List A)) (m : Shuffles A)
        → q < map_id
        → lookup q (blocks_of sid (run_maps partition n sid map_id inputs m))
          ≡ lookup q (blocks_of sid m)
    unfolding run_maps
    run_maps-earlier q map_id [] m lt = refl
    run_maps-earlier q map_id (pairs ∷ inputs) m lt =
        let next = write_shuffle_map_output partition n sid map_id pairs m in
        let here : lookup q (blocks_of sid next) ≡ lookup q (blocks_of sid m) =
          rw (blocks_of-write map_id pairs m)
            (ground (arith, lt, lookup-assign q map_id (written n pairs) (blocks_of sid m))) in
        run_maps-earlier q (map_id + 1) inputs next (omega (arith, lt)) ∙ here

    read_from-run_maps :
        (rid map_id : ℕ) (inputs : List (List A)) (m : Shuffles A)
        → rid < n
        → read_from rid
            (length inputs)
            map_id
            (blocks_of sid (run_maps partition n sid map_id inputs m))
          ≡ map (of_reducer rid) inputs
    unfolding read_from run_maps
    read_from-run_maps rid map_id [] m lt = refl
    read_from-run_maps rid map_id (pairs ∷ inputs) m lt =
        let next = write_shuffle_map_output partition n sid map_id pairs m in
        let here : lookup map_id (blocks_of sid next) ≡ some (written n pairs) =
          rw (blocks_of-write map_id pairs m)
            (ground (arith, lookup-assign map_id map_id (written n pairs) (blocks_of sid m))) in
        let kept = run_maps-earlier map_id (map_id + 1) inputs next (omega arith) ∙ here in
        ground (
          arith,
          kept,
          lookup-written rid n pairs lt,
          read_from-run_maps rid (map_id + 1) inputs next lt,
        )

    read_from-none : (rid c map_id : ℕ) → read_from {A = A} rid c map_id [] ≡ []
    unfolding read_from
    read_from-none rid zero map_id = refl
    read_from-none rid (suc c) map_id = read_from-none rid c (map_id + 1)

    -- After the map tasks of a shuffle wrote their outputs, a reduce task reads, for each map in
    -- order, the records of that map's input that are its own, in their order.
    pub read_reduce_output-run_maps :
        (rid : ℕ) (inputs : List (List A)) (m : Shuffles A)
        → rid < n
        → read_reduce_output sid rid (length inputs) (run_maps partition n sid 0 inputs m)
          ≡ map (of_reducer rid) inputs
    unfolding read_reduce_output read_blocks
    read_reduce_output-run_maps rid inputs m lt =
        ground (arith, read_from-run_maps rid 0 inputs m lt, read_from-none rid (length inputs) 0)
