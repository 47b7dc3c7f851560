-- ===== src/Joins/Rows.antt =====
-- pair_rdd.go: the rows of the inner, the outer joins and SubtractByKey.
use go_spark.Prelude.{
  ℕ, suc, ◌+◌, ◌<◌, ◌≡◌, refl, ap, ◌∙◌, Bool, Bool-cases, inl, inr, false, Option, none, some, List,
  [], ◌∷◌, ◌++◌, map, flat_map, length,
}
use go_spark.Prelude.Maps.{Eq}
use go_spark.Order.{WeakOrder}
use go_spark.ExternalSort.{Budget}
use go_spark.Iterator.Yields.{map_iterator-Yields}
use go_spark.Joins.{
  Cogroup, Sizes, start_place, join_next, left_outer_join_next, full_outer_join_next,
  subtract_start, subtract_next, inner_join, left_outer_join, full_outer_join, subtract_by_key,
  right_outer_join,
}
use go_spark.Joins.Pairs.{
  inner_rows, left_outer_rows, full_outer_rows, subtract_rows, join_next-Yields,
  left_outer_join_next-Yields, full_outer_join_next-Yields, subtract_next-Yields,
}
use go_spark.Joins.Cogrouped.{at_key}
use go_spark.Joins.Joined.{HaveKey, Readable, YieldsRows, expanded-YieldsRows}

module _ {K U : Type 0} (k : K) where
  HaveKey-map : {A : Type 0} (g : A → U) (l : List A) → HaveKey k (map (λ x. (k, g x)) l)
  HaveKey-map g [] = tt
  HaveKey-map g (x ∷ l) = (refl, HaveKey-map g l)

  HaveKey-append : (l m : List (K × U)) → HaveKey k l → HaveKey k m → HaveKey k (l ++ m)
  HaveKey-append [] m h1 h2 = h2
  HaveKey-append (r ∷ l) m h1 h2 = (h1.0, HaveKey-append l m h1.1 h2)

  HaveKey-flat_map :
      {A : Type 0} (f : A → List (K × U)) (l : List A)
      → ((x : A) → HaveKey k (f x))
      → HaveKey k (flat_map f l)
  unfolding flat_map
  HaveKey-flat_map f [] h = tt
  HaveKey-flat_map f (x ∷ l) h = HaveKey-append (f x) (flat_map f l) (h x) (HaveKey-flat_map f l h)

module _ {K V W : Type 0} where
  inner_rows-HaveKey : (p : Cogroup K V W) → HaveKey p.0 (inner_rows p)
  inner_rows-HaveKey (k, (vs, ws)) = HaveKey-flat_map k _ vs (λ v. HaveKey-map k (λ w. (v, w)) ws)

  left_outer_rows-HaveKey : (p : Cogroup K V W) → HaveKey p.0 (left_outer_rows p)
  left_outer_rows-HaveKey (k, (vs, [])) = HaveKey-map k (λ v. (v, none)) vs
  left_outer_rows-HaveKey (k, (vs, w ∷ ws)) =
      HaveKey-flat_map k _ vs (λ v. HaveKey-map k (λ x. (v, some x)) (w ∷ ws))

  full_outer_rows-HaveKey : (p : Cogroup K V W) → HaveKey p.0 (full_outer_rows p)
  full_outer_rows-HaveKey (k, ([], ws)) = HaveKey-map k (λ w. (none, some w)) ws
  full_outer_rows-HaveKey (k, (v ∷ vs, [])) = HaveKey-map k (λ x. (some x, none)) (v ∷ vs)
  full_outer_rows-HaveKey (k, (v ∷ vs, w ∷ ws)) =
      HaveKey-flat_map k _ (v ∷ vs) (λ x. HaveKey-map k (λ y. (some x, some y)) (w ∷ ws))

  subtract_rows-HaveKey : (p : Cogroup K V W) → HaveKey p.0 (subtract_rows p)
  subtract_rows-HaveKey (k, (vs, [])) = HaveKey-map k (λ v. v) vs
  subtract_rows-HaveKey (k, (vs, w ∷ ws)) = tt

module _ {K : Type 0} ⦃e : Eq K⦄ where
  at_key-map :
      {T U : Type 0} (f : T → U) (j : K) (l : List (K × T))
      → at_key j (map (λ r. (r.0, f r.1)) l) ≡ map (λ r. (r.0, f r.1)) (at_key j l)
  at_key-map f j [] = refl
  at_key-map f j (r ∷ l) = elim (Bool-cases (e.beq r.0 j)) [
    | inl hit ↦ rw hit (ap (◌∷◌ (r.0, f r.1)) (at_key-map f j l))
    | inr miss ↦ rw miss (at_key-map f j l)
  ]

module _ {K V W : Type 0} where
  -- The rows of a left outer join with the sides swapped.
  abbrev pub right_outer_rows : Cogroup K W V → List (K × (Option V × W))
  right_outer_rows p = map (λ r. (r.0, (r.1.1, r.1.0))) (left_outer_rows p)

module _ {K V W : Type 0} ⦃e : Eq K⦄ (less : K → K → Bool) (o : WeakOrder less)
    (tie : (a b : K) → less a b ≡ false → less b a ≡ false → a ≡ b) (left : Sizes K V)
    (right : Sizes K W) (b : Budget) (limit fuel : ℕ) (s1 : List (K × V)) (s2 : List (K × W))
    (readable1 : Readable less o b limit left s1) (readable2 : Readable less o b limit right s2)
    (enough : length s1 + length s2 < suc fuel) where
  -- From two streams of which each record fits the budget, and the values of each key the limit of a
  -- group, by a weak order of tokens whose ties are equal keys, and with more fuel than there are
  -- records, the groups can be read, and Join yields, for each key, every value of the left with
  -- every value of the right, in their order.
  pub inner_join-YieldsRows :
      YieldsRows less o tie left right b limit
        (inner_join less (suc fuel))
        (λ g. (none, g))
        inner_rows
        s1
        s2
  unfolding flat_map
  inner_join-YieldsRows =
      expanded-YieldsRows less o tie left right b limit join_next start_place inner_rows
        inner_rows-HaveKey (λ j. refl) (λ p. join_next-Yields p.0 p.1.0 p.1.1) fuel s1 s2 readable1
        readable2 enough

  pub left_outer_join-YieldsRows :
      YieldsRows less o tie left right b limit
        (left_outer_join less (suc fuel))
        (λ g. (none, g))
        left_outer_rows
        s1
        s2
  left_outer_join-YieldsRows =
      expanded-YieldsRows less o tie left right b limit left_outer_join_next start_place
        left_outer_rows left_outer_rows-HaveKey (λ j. refl)
        (λ p. left_outer_join_next-Yields p.0 p.1.0 p.1.1) fuel s1 s2 readable1 readable2 enough

  -- From two streams of which each record fits the budget, and the values of each key the limit of a
  -- group, by a weak order of tokens whose ties are equal keys, and with more fuel than there are
  -- records, the groups can be read, and FullOuterJoin yields, for each key, every value of the left
  -- with every value of the right, and with nil the values of a key that the other side does not
  -- have.
  pub full_outer_join-YieldsRows :
      YieldsRows less o tie left right b limit
        (full_outer_join less (suc fuel))
        (λ g. (none, g))
        full_outer_rows
        s1
        s2
  full_outer_join-YieldsRows =
      expanded-YieldsRows less o tie left right b limit full_outer_join_next start_place
        full_outer_rows full_outer_rows-HaveKey (λ j. refl)
        (λ p. full_outer_join_next-Yields p.0 p.1.0 p.1.1) fuel s1 s2 readable1 readable2 enough

  -- From two streams of which each record fits the budget, and the values of each key the limit of a
  -- group, by a weak order of tokens whose ties are equal keys, and with more fuel than there are
  -- records, the groups can be read, and SubtractByKey yields, for each key, the values of the left
  -- in their order if the right has none, and nothing otherwise.
  pub subtract_by_key-YieldsRows :
      YieldsRows less o tie left right b limit
        (subtract_by_key less (suc fuel))
        (λ g. (none, g))
        subtract_rows
        s1
        s2
  subtract_by_key-YieldsRows =
      expanded-YieldsRows less o tie left right b limit subtract_next subtract_start subtract_rows
        subtract_rows-HaveKey (λ j. refl) (λ p. subtract_next-Yields p.0 p.1.0 p.1.1) fuel s1 s2
        readable1 readable2 enough

  -- From two streams of which each record fits the budget, and the values of each key the limit of a
  -- group, by a weak order of tokens whose ties are equal keys, and with more fuel than there are
  -- records, the groups can be read, and RightOuterJoin of the second RDD with the first yields, for
  -- each key, the rows of LeftOuterJoin with the sides swapped.
  pub right_outer_join-YieldsRows :
      YieldsRows less o tie left right b limit
        (right_outer_join less (suc fuel))
        (λ g. (none, g))
        right_outer_rows
        s1
        s2
  right_outer_join-YieldsRows =
      let (g, eq, (out, y, of_keys)) = left_outer_join-YieldsRows in
      (
        g,
        eq,
        (
          map (λ r. (r.0, (r.1.1, r.1.0))) out,
          map_iterator-Yields (left_outer_join less (suc fuel)) (λ r. (r.0, (r.1.1, r.1.0))) y,
          λ j.
              at_key-map (λ x. (x.1, x.0)) j out
              ∙ ap (map (λ r. (r.0, (r.1.1, r.1.0)))) (of_keys j),
        ),
      )
