-- ===== src/Joins/Joined.antt =====
-- pair_rdd.go: the partitions of the joins against the values of each key.
use go_spark.Prelude.{
  ℕ, suc, ◌+◌, ◌≤◌, ◌<◌, ◌≡◌, refl, sym, ap, subst, ◌∙◌, Bool, Bool-cases, inl, inr, false, none,
  List, [], ◌∷◌, ◌++◌, append-nil, arith, flat_map, select-append, All, length,
}
use go_spark.Prelude.Maps.{Eq}
use go_spark.Prelude.Results.{ok}
use go_spark.Order.{WeakOrder}
use go_spark.ExternalSort.{Budget}
use go_spark.RangeSort.SortByKey.{Fits}
use go_spark.Iterator.{Next, expand_iterator}
use go_spark.Iterator.Yields.{Yields, expand_iterator-Yields}
use go_spark.Joins.{Cogroup, Sizes, cogroup_groups, cogroup_next}
use go_spark.Joins.Groups.{total, values_of, AreGroups, bounded_groups-AreGroups}
use go_spark.Joins.Cogrouped.{cogrouped, at_key, at_key-hit, at_key-miss, cogroup_next-cogrouped}

-- Every row of a cogroup has its key.
abbrev pub HaveKey : {K U : Type 0} → K → List (K × U) → Type 0
HaveKey k rows = All (λ r. r.0 ≡ k) rows

module _ {K : Type 0} ⦃e : Eq K⦄ where
  at_key-all : {U : Type 0} (j : K) (l : List (K × U)) → HaveKey j l → at_key j l ≡ l
  at_key-all j [] h = refl
  at_key-all j (r ∷ l) h =
      at_key-hit j r l ((e.beq_iff r.0 j).1 h.0) ∙ ap (◌∷◌ r) (at_key-all j l h.1)

  at_key-none :
      {U : Type 0} (j k : K) (l : List (K × U)) → e.beq k j ≡ false → HaveKey k l → at_key j l ≡ []
  at_key-none j k [] miss h = refl
  at_key-none j k (r ∷ l) miss h =
      at_key-miss j r l (ap (λ m. e.beq m j) h.0 ∙ miss) ∙ at_key-none j k l miss h.1

  at_key-append :
      {U : Type 0} (j : K) (l m : List (K × U)) → at_key j (l ++ m) ≡ at_key j l ++ at_key j m
  at_key-append j l m = select-append (λ r. e.beq r.0 j) l m

  module _ {V W U : Type 0} (rows : Cogroup K V W → List (K × U))
      (keyed : (p : Cogroup K V W) → HaveKey p.0 (rows p)) where
    at_key-flat_map :
        (j : K) (out : List (Cogroup K V W))
        → at_key j (flat_map rows out) ≡ flat_map rows (at_key j out)
    unfolding flat_map
    at_key-flat_map j [] = refl
    at_key-flat_map j (p ∷ out) =
        at_key-append j (rows p) (flat_map rows out) ∙ elim (Bool-cases (e.beq p.0 j)) [
          | inl hit ↦
              let all =
                at_key-all j (rows p)
                  (subst (λ k. HaveKey k (rows p)) ((e.beq_iff p.0 j).0 hit) (keyed p)) in
              rw (hit, all) (ap (λ l. rows p ++ l) (at_key-flat_map j out))
          | inr miss ↦ rw (miss, at_key-none j p.0 (rows p) miss (keyed p)) (at_key-flat_map j out)
        ]

    flat_map-cogrouped :
        (j : K) (vs : List V) (ws : List W)
        → rows (j, ([], [])) ≡ []
        → flat_map rows (cogrouped j vs ws) ≡ rows (j, (vs, ws))
    unfolding flat_map
    flat_map-cogrouped j [] [] empty = sym empty
    flat_map-cogrouped j (v ∷ vs) ws empty = append-nil (rows (j, (v ∷ vs, ws)))
    flat_map-cogrouped j [] (w ∷ ws) empty = append-nil (rows (j, ([], w ∷ ws)))

module _ {K : Type 0} ⦃e : Eq K⦄ (less : K → K → Bool) (o : WeakOrder less) (b : Budget)
    (limit : ℕ) where
  -- Every record of a stream fits the budget, and the values of each key the limit of a group.
  abbrev pub Readable : {U : Type 0} → Sizes K U → List (K × U) → Type 0
  Readable sizes stream =
      Fits less o (λ r. r.0) sizes.record_size b stream
      × ((j : K) → total sizes.encoded (values_of j stream) ≤ limit)

module _ {K V W : Type 0} ⦃e : Eq K⦄ (less : K → K → Bool) (o : WeakOrder less)
    (tie : (a b : K) → less a b ≡ false → less b a ≡ false → a ≡ b) (left : Sizes K V)
    (right : Sizes K W) (b : Budget) (limit : ℕ) where
  cogroup_groups-AreGroups :
      (s1 : List (K × V)) (s2 : List (K × W))
      → Readable less o b limit left s1
      → Readable less o b limit right s2
      → (g : List (K × List V) × List (K × List W)) × (cogroup_groups less left right b limit s1 s2
          ≡ ok g)
        × AreGroups less s1 g.0
        × AreGroups less s2 g.1
  unfolding cogroup_groups
  cogroup_groups-AreGroups s1 s2 (fits1, small1) (fits2, small2) =
      let (g1, e1, are1) =
        bounded_groups-AreGroups left.encoded limit less o tie left.record_size b s1 fits1 small1 in
      let (g2, e2, are2) =
        bounded_groups-AreGroups right.encoded limit less o tie right.record_size b s2 fits2
          small2 in
      ((g1, g2), rw (e1, e2) refl, are1, are2)

  -- The two streams can be read into groups, and from them an iterator yields rows of which those of each
  -- key are made from the values of the key in each stream, in their order.
  abbrev pub YieldsRows :
      {S U : Type 0}
      → Next S (K × U)
      → (List (K × List V) × List (K × List W) → S)
      → (Cogroup K V W → List (K × U))
      → List (K × V)
      → List (K × W)
      → Type 0
  YieldsRows {S} {U} next from rows s1 s2 =
      (g : List (K × List V) × List (K × List W)) × (cogroup_groups less left right b limit s1 s2
        ≡ ok g)
      × ((out : List (K × U)) × Yields next (from g) out
          × ((j : K) → at_key j out ≡ rows (j, (values_of j s1, values_of j s2))))

  module _ {R U : Type 0} (next : Next R (K × U)) (fn : Cogroup K V W → R)
      (rows : Cogroup K V W → List (K × U)) (keyed : (p : Cogroup K V W) → HaveKey p.0 (rows p))
      (empty : (j : K) → rows (j, ([], [])) ≡ [])
      (yields : (p : Cogroup K V W) → Yields next (fn p) (rows p)) where
    pub expanded-YieldsRows :
        (fuel : ℕ) (s1 : List (K × V)) (s2 : List (K × W))
        → Readable less o b limit left s1
        → Readable less o b limit right s2
        → length s1 + length s2 < suc fuel
        → YieldsRows
            (expand_iterator (cogroup_next less) next (suc fuel) fn)
            (λ g. (none, g))
            rows
            s1
            s2
    expanded-YieldsRows fuel s1 s2 r1 r2 enough =
        let (g, eq, are1, are2) = cogroup_groups-AreGroups s1 s2 r1 r2 in
        let (out, y, count, of_keys) = cogroup_next-cogrouped less o tie s1 s2 g.0 g.1 are1 are2 in
        (
          g,
          eq,
          (
            flat_map rows out,
            expand_iterator-Yields (cogroup_next less) next fn rows yields fuel y
                (omega (arith, count, enough)),
            λ j.
                at_key-flat_map rows keyed j out
                ∙ ap (flat_map rows) (of_keys j)
                ∙ flat_map-cogrouped rows keyed j (values_of j s1) (values_of j s2) (empty j),
          ),
        )
