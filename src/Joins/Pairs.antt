-- ===== src/Joins/Pairs.antt =====
-- pair_rdd.go: what the iterators of the joins yield of one group.
use go_spark.Prelude.{
  ℕ, zero, suc, ◌+◌, ◌-◌, ◌≤◌, ◌<◌, ◌≡◌, refl, sym, ap, subst, ◌∙◌, false, Option, none, some, List,
  [], ◌∷◌, ◌++◌, arith, leb, map, flat_map, length, length-drop, drop, get_elem?,
}
use go_spark.Iterator.{Next, slice_iterator, map_iterator}
use go_spark.Iterator.Yields.{
  Yields, done, more, drop_cons, slice_iterator-Yields, map_iterator-Yields,
}
use go_spark.Joins.{
  Cogroup, Place, advance, start_place, join_next, left_outer_join_next, full_outer_join_next,
  subtract_start, subtract_next,
}

length_left : {A : Type 0} (j : ℕ) (xs r : List A) → drop j xs ≡ r → length xs - j ≡ length r
length_left j xs r d = sym (length-drop j xs) ∙ ap length d

plus_one : (j : ℕ) → suc j ≡ j + 1
plus_one j = omega arith

drop_next : {A : Type 0} (j : ℕ) (xs r : List A) → drop (suc j) xs ≡ r → drop (j + 1) xs ≡ r
drop_next j xs r d = subst (λ n. drop n xs ≡ r) (plus_one j) d

module _ {K V W : Type 0} where
  -- Every value of the left with every value of the right.
  abbrev pub inner_rows : Cogroup K V W → List (K × (V × W))
  inner_rows (k, (vs, ws)) = flat_map (λ v. map (λ w. (k, (v, w))) ws) vs

  -- The same, with nil for the value of the right if there is none.
  abbrev pub left_outer_rows : Cogroup K V W → List (K × (V × Option W))
  left_outer_rows (k, (vs, [])) = map (λ v. (k, (v, none))) vs
  left_outer_rows (k, (vs, w ∷ ws)) = flat_map (λ v. map (λ x. (k, (v, some x))) (w ∷ ws)) vs

  -- The same, with nil on either side.
  abbrev pub full_outer_rows : Cogroup K V W → List (K × (Option V × Option W))
  full_outer_rows (k, ([], ws)) = map (λ w. (k, (none, some w))) ws
  full_outer_rows (k, (v ∷ vs, [])) = map (λ x. (k, (some x, none))) (v ∷ vs)
  full_outer_rows (k, (v ∷ vs, w ∷ ws)) =
      flat_map (λ x. map (λ y. (k, (some x, some y))) (w ∷ ws)) (v ∷ vs)

  -- The values of the left, if there are none on the right.
  abbrev pub subtract_rows : Cogroup K V W → List (K × V)
  subtract_rows (k, (vs, [])) = map (λ v. (k, v)) vs
  subtract_rows (k, (vs, w ∷ ws)) = []

-- An iterator over a group that goes through the values of the left, and for each of them through those
-- of the right.
module _ {K V W U : Type 0} (next : Next (Place K V W) U) (k : K) (vs : List V) (ws : List W) where
  abbrev at : ℕ → ℕ → Place K V W
  at i j = ((k, (vs, ws)), (i, j))

  abbrev Ends : Type 0
  Ends = (i j : ℕ) → length vs ≤ i → next (at i j) ≡ (none, at i j)

  abbrev StepsBoth : (V → W → U) → Type 0
  StepsBoth row =
      (i j : ℕ) (v : V) (w : W)
      → get_elem? vs i ≡ some v
      → get_elem? ws j ≡ some w
      → next (at i j) ≡ (some (row v w), ((k, (vs, ws)), advance (length ws) i j))

  abbrev StepsLeft : (V → U) → Type 0
  StepsLeft row =
      (i j : ℕ) (v : V) → get_elem? vs i ≡ some v → next (at i j) ≡ (some (row v), at (i + 1) j)

  module _ (row : V → W → U) (steps : StepsBoth row) where
    -- The rest of the values of the right, for one of the left.
    row-Yields :
        (i j : ℕ) (v : V) (w : W) (wr : List W) (tail : List U)
        → get_elem? vs i ≡ some v
        → drop j ws ≡ w ∷ wr
        → Yields next (at (i + 1) 0) tail
        → Yields next (at i j) (map (row v) (w ∷ wr) ++ tail)
    row-Yields i j v w [] tail at_i at_j rest =
        let (at_w, _) = drop_cons ws [] w j at_j in
        let last : length ws ≡ j + 1 = omega (arith, length_left j ws (w ∷ []) at_j) in
        more {s' = at (i + 1) 0} (steps i j v w at_i at_w ∙ ground (arith, last)) rest
    row-Yields i j v w (w' ∷ wr) tail at_i at_j rest =
        let (at_w, next_j) = drop_cons ws (w' ∷ wr) w j at_j in
        let inside : j + 1 < length ws = omega (arith, length_left j ws (w ∷ w' ∷ wr) at_j) in
        more {s' = at i (j + 1)} (steps i j v w at_i at_w ∙ ground (arith, inside))
          (row-Yields i (j + 1) v w' wr tail at_i (drop_next j ws (w' ∷ wr) next_j) rest)

  both-Yields :
      (row : V → W → U) (w : W) (wr : List W) (vr : List V) (i : ℕ)
      → StepsBoth row
      → Ends
      → ws ≡ w ∷ wr
      → drop i vs ≡ vr
      → Yields next (at i 0) (flat_map (λ v. map (row v) (w ∷ wr)) vr)
  unfolding flat_map
  both-Yields row w wr [] i steps ends e d =
      done {s' = at i 0} (ends i 0 (omega (arith, length_left i vs [] d)))
  both-Yields row w wr (v ∷ vr) i steps ends e d =
      let (at_v, rest) = drop_cons vs vr v i d in
      row-Yields row steps i 0 v w wr _ at_v e
        (both-Yields row w wr vr (i + 1) steps ends e (drop_next i vs vr rest))

  left-Yields :
      (row : V → U) (vr : List V) (i j : ℕ)
      → StepsLeft row
      → Ends
      → drop i vs ≡ vr
      → Yields next (at i j) (map row vr)
  left-Yields row [] i j steps ends d =
      done {s' = at i j} (ends i j (omega (arith, length_left i vs [] d)))
  left-Yields row (v ∷ vr) i j steps ends d =
      let (at_v, rest) = drop_cons vs vr v i d in
      more {s' = at (i + 1) j} (steps i j v at_v)
        (left-Yields row vr (i + 1) j steps ends (drop_next i vs vr rest))

some_left :
    {V : Type 0} (i : ℕ) (v : V) (vs : List V) → get_elem? vs i ≡ some v → leb (length vs) i ≡ false
some_left i v [] e = cc
some_left zero v (x ∷ vs) e = ground arith
some_left (suc i) v (x ∷ vs) e = ground (arith, some_left i v vs e)

no_rows : {V U : Type 0} (vs : List V) → flat_map {B = U} (λ v. []) vs ≡ []
unfolding flat_map
no_rows [] = refl
no_rows (v ∷ vs) = no_rows vs

module _ {K V : Type 0} (k : K) where
  subtract-Yields :
      (vs : List V) (i : ℕ) (r : List (K × V))
      → Yields (map_iterator (slice_iterator vs) (λ x. (k, x))) i r
      → Yields subtract_next (some (k, (vs, i))) r
  unfolding subtract_next
  subtract-Yields vs i [] (done {s'} e) = done {s' = some (k, (vs, s'))} (ground (arith, e))
  subtract-Yields vs i _ (more {s'} e rest) =
      more {s' = some (k, (vs, s'))} (ground (arith, e)) (subtract-Yields vs s' _ rest)

module _ {K V W : Type 0} (k : K) where
  -- The iterator of NewJoinRDD yields every value of the left with every value of the right.
  pub join_next-Yields :
      (vs : List V) (ws : List W)
      → Yields join_next (start_place (k, (vs, ws))) (inner_rows (k, (vs, ws)))
  unfolding join_next
  join_next-Yields vs [] = rw (no_rows vs) (done {s' = start_place (k, (vs, []))} (ground arith))
  join_next-Yields vs (w ∷ wr) =
      both-Yields join_next k vs (w ∷ wr) (λ v x. (k, (v, x))) w wr vs 0
        (λ i j v x at_v at_w. ground (arith, at_v, at_w, some_left i v vs at_v))
        (λ i j le. ground (arith, le)) refl refl

  pub left_outer_join_next-Yields :
      (vs : List V) (ws : List W)
      → Yields left_outer_join_next (start_place (k, (vs, ws))) (left_outer_rows (k, (vs, ws)))
  unfolding left_outer_join_next
  left_outer_join_next-Yields vs [] =
      left-Yields left_outer_join_next k vs [] (λ v. (k, (v, none))) vs 0 0
        (λ i j v at_v. ground (arith, at_v, some_left i v vs at_v)) (λ i j le. ground (arith, le))
        refl
  left_outer_join_next-Yields vs (w ∷ wr) =
      both-Yields left_outer_join_next k vs (w ∷ wr) (λ v x. (k, (v, some x))) w wr vs 0
        (λ i j v x at_v at_w. ground (arith, at_v, at_w, some_left i v vs at_v))
        (λ i j le. ground (arith, le)) refl refl

  right-Yields :
      (ws wr : List W) (j : ℕ)
      → drop j ws ≡ wr
      → Yields full_outer_join_next
          ((k, ([], ws)), (0, j))
          (map {B = K × (Option V × Option W)} (λ w. (k, (none, some w))) wr)
  unfolding full_outer_join_next
  right-Yields ws [] j d =
      let left : length ws ≤ j = omega (arith, length_left j ws [] d) in
      done {s' = ((k, ([], ws)), (0, j))} (ground (arith, left))
  right-Yields ws (w ∷ wr) j d =
      let (at_w, rest) = drop_cons ws wr w j d in
      more {s' = ((k, ([], ws)), (0, j + 1))} (ground (arith, at_w, some_left j w ws at_w))
        (right-Yields ws wr (j + 1) (drop_next j ws wr rest))

  pub full_outer_join_next-Yields :
      (vs : List V) (ws : List W)
      → Yields full_outer_join_next (start_place (k, (vs, ws))) (full_outer_rows (k, (vs, ws)))
  unfolding full_outer_join_next
  full_outer_join_next-Yields [] ws = right-Yields ws ws 0 refl
  full_outer_join_next-Yields (v ∷ vs) [] =
      left-Yields full_outer_join_next k (v ∷ vs) [] (λ x. (k, (some x, none))) (v ∷ vs) 0 0
        (λ i j x at_v. ground (arith, at_v, some_left i x (v ∷ vs) at_v))
        (λ i j le. ground (arith, le)) refl
  full_outer_join_next-Yields (v ∷ vs) (w ∷ wr) =
      both-Yields full_outer_join_next k (v ∷ vs) (w ∷ wr) (λ x y. (k, (some x, some y))) w wr
        (v ∷ vs) 0 (λ i j x y at_v at_w. ground (arith, at_v, at_w, some_left i x (v ∷ vs) at_v))
        (λ i j le. ground (arith, le)) refl refl

  pub subtract_next-Yields :
      (vs : List V) (ws : List W)
      → Yields subtract_next (subtract_start (k, (vs, ws))) (subtract_rows (k, (vs, ws)))
  unfolding subtract_next
  subtract_next-Yields vs [] =
      subtract-Yields k vs 0 _
        (map_iterator-Yields (slice_iterator vs) (λ x. (k, x)) (slice_iterator-Yields vs))
  subtract_next-Yields vs (w ∷ wr) = done refl
