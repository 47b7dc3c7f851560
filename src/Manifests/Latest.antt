-- ===== src/Manifests/Latest.antt =====
-- scheduler.go: the manifests that latestManifests keeps.
use go_spark.Prelude.{
  ℕ, suc, ◌≤◌, ◌≡◌, refl, sym, ap, subst, ◌∙◌, Bool-cases, ◌⊎◌, inl, inr, false, Option,
  Option-cases, none, some, List, [], ◌∷◌, ◌++◌, arith, ltb, if◌then◌else◌, All, get_elem?,
}
use go_spark.Prelude.Maps.{pair_eq, pair_beq, pair_beq_iff, lookup, assign, lookup-assign, OneEntry}
use go_spark.Scheduler.{Manifest, PartitionKey}
use go_spark.Manifests.{output_key, best_from, latest_manifests}
use go_spark.Manifests.Ordered.{
  best_from-absent, best_from-present, entries, lookup-in_order, OneEntry-in_order,
  best_from-IsState,
}

-- What is kept for a key: nothing if no map output has it, and otherwise one that has it, whose
-- attempt is not less than that of any other.
abbrev pub IsLatest : PartitionKey → List Manifest → Option Manifest → Type 0
IsLatest k maps none = All (λ m. pair_beq (output_key m) k ≡ false) maps
IsLatest k maps (some r) =
    (output_key r ≡ k)
    × ((i : ℕ) × (get_elem? maps i ≡ some r))
    × All (λ m. output_key m ≡ k → m.attempt ≤ r.attempt) maps

abbrev better : Manifest → Option Manifest → Manifest
better m none = m
better m (some old) = if ltb old.attempt m.attempt then m else old

-- The entry of one key through the loop.
abbrev pick : PartitionKey → List Manifest → Option Manifest → Option Manifest
pick k [] b = b
pick k (m ∷ maps) b = pick k maps (if pair_beq (output_key m) k then some (better m b) else b)

-- The entry of a key after the output of a map was looked at, which was `o` before.
lookup-better :
    (k : PartitionKey) (m : Manifest) (best : List (PartitionKey × Manifest)) (o : Option Manifest)
    → lookup (output_key m) best ≡ o
    → (output_key m ≡ k → lookup k best ≡ o)
lookup-better k m best o at same = subst (λ j. lookup j best ≡ o) same at

lookup-best_from :
    (k : PartitionKey) (maps : List Manifest) (best : List (PartitionKey × Manifest))
    (order : List PartitionKey)
    → lookup k (best_from maps best order).0 ≡ pick k maps (lookup k best)
unfolding best_from
lookup-best_from k [] best order = refl
lookup-best_from k (m ∷ maps) best order = elim (Option-cases (lookup (output_key m) best)) [
  | inl absent ↦
      let entry : lookup k (assign (output_key m) m best)
          ≡ (if pair_beq (output_key m) k then some (better m (lookup k best)) else lookup k best) =
        ground (
          arith,
          lookup-assign k (output_key m) m best,
          pair_beq_iff (output_key m) k,
          lookup-better k m best none absent,
        ) in
      rw (best_from-absent m maps best order absent) (
        lookup-best_from k maps (assign (output_key m) m best) (order ++ output_key m ∷ [])
        ∙ ap (pick k maps) entry)
  | inr (old, present) ↦
      let best' = if ltb old.attempt m.attempt then assign (output_key m) m best else best in
      let entry : lookup k best'
          ≡ (if pair_beq (output_key m) k then some (better m (lookup k best)) else lookup k best) =
        ground (
          arith,
          lookup-assign k (output_key m) m best,
          pair_beq_iff (output_key m) k,
          lookup-better k m best (some old) present,
        ) in
      rw (best_from-present m old maps best order present)
        (lookup-best_from k maps best' order ∙ ap (pick k maps) entry)
]

pick-some :
    (k : PartitionKey) (maps : List Manifest) (c : Manifest)
    → output_key c ≡ k
    → (r : Manifest) × (pick k maps (some c) ≡ some r)
      × (output_key r ≡ k)
      × ((r ≡ c) ⊎ ((i : ℕ) × (get_elem? maps i ≡ some r)))
      × (c.attempt ≤ r.attempt)
      × All (λ m. output_key m ≡ k → m.attempt ≤ r.attempt) maps
pick-some k [] c same = (c, refl, same, inl refl, omega arith, tt)
pick-some k (m ∷ maps) c same = elim (Bool-cases (pair_beq (output_key m) k)) [
  | inr miss ↦
      let (r, e, of_k, from, le, all) = pick-some k maps c same in
      (
        r,
        rw miss e,
        of_k,
        elim from [ inl is ↦ inl is | inr (i, at) ↦ inr (suc i, at) ],
        le,
        ((λ hit. ground (arith, pair_beq_iff (output_key m) k, miss, hit)), all),
      )
  | inl hit ↦ elim (Bool-cases (ltb c.attempt m.attempt)) [
    | inl less ↦
        let (r, e, of_k, from, le, all) =
          pick-some k maps m ((pair_beq_iff (output_key m) k).0 hit) in
        (
          r,
          rw hit (rw less e),
          of_k,
          elim from [ inl is ↦ inr (0, ap some (sym is)) | inr (i, at) ↦ inr (suc i, at) ],
          ground (arith, less, le),
          ((λ h. le), all),
        )
    | inr not_less ↦
        let (r, e, of_k, from, le, all) = pick-some k maps c same in
        (
          r,
          rw hit (rw not_less e),
          of_k,
          elim from [ inl is ↦ inl is | inr (i, at) ↦ inr (suc i, at) ],
          le,
          ((λ h. ground (arith, not_less, le)), all),
        )
  ]
]

IsLatest-cons :
    (k : PartitionKey) (m : Manifest) (maps : List Manifest) (o : Option Manifest)
    → pair_beq (output_key m) k ≡ false
    → IsLatest k maps o
    → IsLatest k (m ∷ maps) o
IsLatest-cons k m maps none miss all = (miss, all)
IsLatest-cons k m maps (some r) miss (of_k, (i, at), all) =
    (of_k, (suc i, at), ((λ hit. ground (arith, pair_beq_iff (output_key m) k, miss, hit)), all))

pick-IsLatest : (k : PartitionKey) (maps : List Manifest) → IsLatest k maps (pick k maps none)
pick-IsLatest k [] = tt
pick-IsLatest k (m ∷ maps) = elim (Bool-cases (pair_beq (output_key m) k)) [
  | inl hit ↦
      let same = (pair_beq_iff (output_key m) k).0 hit in
      let (r, e, of_k, from, le, all) = pick-some k maps m same in
      let latest : IsLatest k (m ∷ maps) (some r) = (
        of_k,
        elim from [ inl is ↦ (0, ap some (sym is)) | inr (i, at) ↦ (suc i, at) ],
        ((λ h. le), all),
      ) in
      rw hit (subst (IsLatest k (m ∷ maps)) (sym e) latest)
  | inr miss ↦ rw miss (IsLatest-cons k m maps (pick k maps none) miss (pick-IsLatest k maps))
]

-- latestManifests keeps one manifest for each shuffle and map that has an output, and none for any
-- other: one of the outputs, whose attempt is not less than that of any other output of the map.
pub latest_manifests-IsLatest :
    (maps : List Manifest)
    → OneEntry (entries (latest_manifests maps))
      × ((k : PartitionKey) → IsLatest k maps (lookup k (entries (latest_manifests maps))))
unfolding latest_manifests
latest_manifests-IsLatest maps =
    let st =
      best_from-IsState maps [] [] (record { present = tt; absent = λ k h. refl; distinct = tt }) in
    (
      OneEntry-in_order (best_from maps [] []).0 (best_from maps [] []).1 st.present st.distinct,
      λ k.
          subst (IsLatest k maps)
            (sym (
              lookup-in_order k (best_from maps [] []).0 (best_from maps [] []).1 st.present
              ∙ ground (arith, st.absent k)
              ∙ lookup-best_from k maps [] []))
            (pick-IsLatest k maps),
    )
