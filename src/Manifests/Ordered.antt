-- ===== src/Manifests/Ordered.antt =====
-- scheduler.go: the two loops of latestManifests: the map and the order that they keep together.
use go_spark.Prelude.{
  ◌≡◌, refl, sym, ap, subst, Bool-cases, inl, inr, true, false, Option-cases, none, some, List, [],
  ◌∷◌, ◌++◌, arith, ◌||◌, ltb, if◌then◌else◌, map, All,
}
use go_spark.Prelude.Maps.{
  pair_eq, pair_beq, pair_beq_iff, lookup, assign, lookup-assign, contains, OneEntry,
}
use go_spark.Scheduler.{Manifest, PartitionKey}
use go_spark.Manifests.{output_key, best_from, in_order}

abbrev pub Distinct : List PartitionKey → Type 0
Distinct [] = Unit
Distinct (k ∷ order) = (contains k order ≡ false) × Distinct order

pub best_from-absent :
    (m : Manifest) (maps : List Manifest) (best : List (PartitionKey × Manifest))
    (order : List PartitionKey)
    → lookup (output_key m) best ≡ none
    → best_from (m ∷ maps) best order
      ≡ best_from maps (assign (output_key m) m best) (order ++ output_key m ∷ [])
unfolding best_from
best_from-absent m maps best order absent = ground (arith, absent)

pub best_from-present :
    (m old : Manifest) (maps : List Manifest) (best : List (PartitionKey × Manifest))
    (order : List PartitionKey)
    → lookup (output_key m) best ≡ some old
    → best_from (m ∷ maps) best order
      ≡ best_from maps
          (if ltb old.attempt m.attempt then assign (output_key m) m best else best)
          order
unfolding best_from
best_from-present m old maps best order present = ground (arith, present)

-- A key has an entry, which is of that key.
abbrev pub Holds : List (PartitionKey × Manifest) → PartitionKey → Type 0
Holds best j = (m : Manifest) × (lookup j best ≡ some m) × (output_key m ≡ j)

-- Both maps and orders have one entry for each key, with what the entry holds.
pub record IsState (best : List (PartitionKey × Manifest)) (order : List PartitionKey)
    : Type 0 where
  pub present : All (Holds best) order
  pub absent : (k : PartitionKey) → contains k order ≡ false → lookup k best ≡ none
  pub distinct : Distinct order

-- The manifests by their keys.
abbrev pub entries : List Manifest → List (PartitionKey × Manifest)
entries maps = map (λ m. (output_key m, m)) maps

in_order-cons :
    (j : PartitionKey) (m : Manifest) (best : List (PartitionKey × Manifest))
    (order : List PartitionKey)
    → lookup j best ≡ some m
    → in_order (j ∷ order) best ≡ m ∷ in_order order best
unfolding in_order
in_order-cons j m best order at = ground (arith, at)

pub lookup-in_order :
    (k : PartitionKey) (best : List (PartitionKey × Manifest)) (order : List PartitionKey)
    → All (Holds best) order
    → lookup k (entries (in_order order best)) ≡ (if contains k order then lookup k best else none)
unfolding in_order
lookup-in_order k best [] h = refl
lookup-in_order k best (j ∷ order) ((m, at, same), h) =
    let here : pair_beq j k ≡ true → lookup k best ≡ some m =
      λ hit. subst (λ x. lookup x best ≡ some m) ((pair_beq_iff j k).0 hit) at in
    let key : pair_beq (output_key m) k ≡ pair_beq j k = ap (λ x. pair_beq x k) same in
    rw (in_order-cons j m best order at) (ground (arith, here, key, lookup-in_order k best order h))

pub OneEntry-in_order :
    (best : List (PartitionKey × Manifest)) (order : List PartitionKey)
    → All (Holds best) order
    → Distinct order
    → OneEntry (entries (in_order order best))
unfolding in_order
OneEntry-in_order best [] h d = tt
OneEntry-in_order best (j ∷ order) ((m, at, same), h) (new, d) =
    let gone : lookup j (entries (in_order order best)) ≡ none =
      ground (arith, lookup-in_order j best order h, new) in
    rw (in_order-cons j m best order at) (
      subst (λ x. lookup x (entries (in_order order best)) ≡ none) (sym same) gone,
      OneEntry-in_order best order h d,
    )

Holds-assign :
    (m : Manifest) (best : List (PartitionKey × Manifest)) (j : PartitionKey)
    → Holds best j
    → Holds (assign (output_key m) m best) j
Holds-assign m best j (c, at, same) = elim (Bool-cases (pair_beq (output_key m) j)) [
  | inl hit ↦ (
    m,
    ground (arith, lookup-assign j (output_key m) m best, hit),
    (pair_beq_iff (output_key m) j).0 hit,
  )
  | inr miss ↦ (c, ground (arith, lookup-assign j (output_key m) m best, miss, at), same)
]

All-assign :
    (m : Manifest) (best : List (PartitionKey × Manifest)) (order : List PartitionKey)
    → All (Holds best) order
    → All (Holds (assign (output_key m) m best)) order
All-assign m best [] h = tt
All-assign m best (j ∷ order) (first, h) = (Holds-assign m best j first, All-assign m best order h)

All-snoc :
    (best : List (PartitionKey × Manifest)) (order : List PartitionKey) (k : PartitionKey)
    → All (Holds best) order
    → Holds best k
    → All (Holds best) (order ++ k ∷ [])
All-snoc best [] k h last = (last, tt)
All-snoc best (j ∷ order) k (first, h) last = (first, All-snoc best order k h last)

contains-snoc :
    (j k : PartitionKey) (order : List PartitionKey)
    → contains j (order ++ k ∷ []) ≡ (contains j order || pair_beq k j)
contains-snoc j k [] = ground arith
contains-snoc j k (i ∷ order) = ground (arith, contains-snoc j k order)

Distinct-snoc :
    (order : List PartitionKey) (k : PartitionKey)
    → contains k order ≡ false
    → Distinct order
    → Distinct (order ++ k ∷ [])
Distinct-snoc [] k new d = (refl, tt)
Distinct-snoc (j ∷ order) k new (other, d) = (
  ground (arith, contains-snoc j k order, new, other, pair_beq_iff j k, pair_beq_iff k j),
  Distinct-snoc order k (ground (arith, new)) d,
)

-- A key of the order has an entry.
contains-Holds :
    (k : PartitionKey) (best : List (PartitionKey × Manifest)) (order : List PartitionKey)
    → All (Holds best) order
    → lookup k best ≡ none
    → contains k order ≡ false
contains-Holds k best [] h gone = refl
contains-Holds k best (j ∷ order) ((m, at, same), h) gone =
    let here : pair_beq j k ≡ true → lookup k best ≡ some m =
      λ hit. subst (λ x. lookup x best ≡ some m) ((pair_beq_iff j k).0 hit) at in
    ground (arith, here, gone, contains-Holds k best order h gone)

assign-IsState :
    (m : Manifest) (best : List (PartitionKey × Manifest)) (order : List PartitionKey)
    → lookup (output_key m) best ≡ none
    → IsState best order
    → IsState (assign (output_key m) m best) (order ++ output_key m ∷ [])
assign-IsState m best order absent st = record {
  present =
      All-snoc (assign (output_key m) m best) order (output_key m)
        (All-assign m best order st.present)
        (
          m,
          ground (
            arith,
            lookup-assign (output_key m) (output_key m) m best,
            pair_beq_iff (output_key m) (output_key m),
          ),
          refl,
        );
  absent = λ k gone. ground (
    arith,
    gone,
    contains-snoc k (output_key m) order,
    lookup-assign k (output_key m) m best,
    st.absent k,
  );
  distinct =
      Distinct-snoc order (output_key m)
        (contains-Holds (output_key m) best order st.present absent) st.distinct;
}

update-IsState :
    (m old : Manifest) (best : List (PartitionKey × Manifest)) (order : List PartitionKey)
    → lookup (output_key m) best ≡ some old
    → IsState best order
    → IsState (assign (output_key m) m best) order
update-IsState m old best order present st = record {
  present = All-assign m best order st.present;
  absent = λ k gone.
      let other : pair_beq (output_key m) k ≡ true → lookup k best ≡ some old = λ hit.
        subst (λ x. lookup x best ≡ some old) ((pair_beq_iff (output_key m) k).0 hit) present in
      ground (arith, gone, other, lookup-assign k (output_key m) m best, st.absent k gone);
  distinct = st.distinct;
}

pub best_from-IsState :
    (maps : List Manifest) (best : List (PartitionKey × Manifest)) (order : List PartitionKey)
    → IsState best order
    → IsState (best_from maps best order).0 (best_from maps best order).1
unfolding best_from
best_from-IsState [] best order st = st
best_from-IsState (m ∷ maps) best order st = elim (Option-cases (lookup (output_key m) best)) [
  | inl absent ↦ rw (best_from-absent m maps best order absent) (
      best_from-IsState maps (assign (output_key m) m best) (order ++ output_key m ∷ [])
        (assign-IsState m best order absent st))
  | inr (old, present) ↦ elim (Bool-cases (ltb old.attempt m.attempt)) [
    | inl less ↦ rw (best_from-present m old maps best order present) (
        rw less (
          best_from-IsState maps (assign (output_key m) m best) order
            (update-IsState m old best order present st)))
    | inr not_less ↦
        rw (best_from-present m old maps best order present)
          (rw not_less (best_from-IsState maps best order st))
  ]
]
