-- ===== src/Joins.antt =====
-- pair_rdd.go, and boundedGroups of external_aggregate.go: the groups of a reduce task, and what a cogroup and
-- the joins make of the groups of two RDDs. `less` compares the tokens of keys; a pointer that may be nil
-- is an option.
pub mod Groups
pub mod Cogrouped
pub mod Pairs
pub mod Joined
pub mod Rows
use go_spark.Prelude.{
  ℕ, zero, suc, ◌+◌, Bool, true, false, not, ◌||◌, Option, none, some, List, [], ◌∷◌, ◌++◌, ◌==◌,
  ltb, leb, if◌then◌else◌, length, get_elem?,
}
use go_spark.Prelude.Maps.{Eq}
use go_spark.Prelude.Results.{Result, ok, err, guard, ◌>>=◌, ◌>>◌}
use go_spark.ExternalSort.{SortError, Budget, external_sort}
use go_spark.Aggregate.{AggregateError, sort_error, group_limit, key_less}
use go_spark.Iterator.{Next, slice_iterator, map_iterator, expand_iterator}

-- The records that two RDDs have of a key.
abbrev pub Cogroup : Type 0 → Type 0 → Type 0 → Type 0
Cogroup K V W = K × (List V × List W)

module _ {V : Type 0} (encoded : V → ℕ) (limit : ℕ) where
  -- The closure add of boundedGroups: the size after a value.
  abbrev pub add_size : ℕ → V → Result AggregateError ℕ
  add_size size v =
      guard (leb (size + (encoded v + 32)) limit) group_limit >> ok (size + (encoded v + 32))

module _ {K V : Type 0} ⦃e : Eq K⦄ (encoded : V → ℕ) (limit : ℕ) where
  -- The iterator from the group of a key so far on; a record of another key is `pending`, the first of
  -- the next group.
  unfoldable pub groups_from :
      K → List V → ℕ → List (K × V) → Result AggregateError (List (K × List V))
  groups_from k values size [] = ok ((k, values) ∷ [])
  groups_from k values size ((j, v) ∷ rest) =
      if e.beq j k
      then (add_size encoded limit size v >>= λ n. groups_from k (values ++ v ∷ []) n rest)
      else (add_size encoded limit 0 v >>= λ n.
          groups_from j (v ∷ []) n rest >>= λ out. ok ((k, values) ∷ out))

  unfoldable pub groups : List (K × V) → Result AggregateError (List (K × List V))
  unfolding groups_from
  groups [] = ok []
  groups ((k, v) ∷ rest) = add_size encoded limit 0 v >>= λ n. groups_from k (v ∷ []) n rest

  abbrev pub groups_of_sorted :
      Result SortError (List (K × V) × ℕ) → Result AggregateError (List (K × List V))
  groups_of_sorted (ok (sorted, n)) = groups sorted
  groups_of_sorted (err s) = err (sort_error s)

  -- boundedGroups of the stream of a reduce task.
  unfoldable pub bounded_groups :
      (K → K → Bool)
      → (K × V → ℕ)
      → Budget
      → List (K × V)
      → Result AggregateError (List (K × List V))
  unfolding groups
  bounded_groups less record_size b stream =
      groups_of_sorted (external_sort (key_less less) record_size b stream)

-- The encoded sizes of values and of records.
pub record Sizes (K V : Type 0) : Type 0 where
  pub encoded : V → ℕ
  pub record_size : K × V → ℕ

module _ {K V W : Type 0} ⦃e : Eq K⦄ (less : K → K → Bool) where
  -- The groups that newCogroupRDD reads for a partition, of the streams of its two reduce tasks.
  unfoldable pub cogroup_groups :
      Sizes K V
      → Sizes K W
      → Budget
      → ℕ
      → List (K × V)
      → List (K × W)
      → Result AggregateError (List (K × List V) × List (K × List W))
  unfolding bounded_groups
  cogroup_groups left right b limit s1 s2 =
      bounded_groups left.encoded limit less left.record_size b s1 >>= λ g1.
      bounded_groups right.encoded limit less right.record_size b s2 >>= λ g2. ok (g1, g2)

  -- The iterator of newCogroupRDD; the state is what the two inputs have left, `a` and `b` the heads.
  unfoldable pub cogroup_next : Next (List (K × List V) × List (K × List W)) (Cogroup K V W)
  cogroup_next ([], []) = (none, ([], []))
  cogroup_next (a ∷ g1, []) = (some (a.0, (a.1, [])), (g1, []))
  cogroup_next ([], b ∷ g2) = (some (b.0, ([], b.1)), ([], g2))
  cogroup_next (a ∷ g1, b ∷ g2) =
      if e.beq a.0 b.0
      then (some (a.0, (a.1, b.1)), (g1, g2))
      else if less a.0 b.0
      then (some (a.0, (a.1, [])), (g1, b ∷ g2))
      else (some (b.0, ([], b.1)), (a ∷ g1, g2))

-- The variables `i` and `j` of a join over a group.
abbrev pub Place : Type 0 → Type 0 → Type 0 → Type 0
Place K V W = Cogroup K V W × (ℕ × ℕ)

-- The step of `i` and `j` after a pair.
abbrev pub advance : ℕ → ℕ → ℕ → ℕ × ℕ
advance num_right i j = if j + 1 == num_right then (i + 1, 0) else (i, j + 1)

module _ {K V W : Type 0} where
  abbrev pub start_place : Cogroup K V W → Place K V W
  start_place p = (p, (0, 0))

  -- The iterator of NewJoinRDD over a group; an index out of range, which a Go program does not
  -- survive, ends the model's.
  unfoldable pub join_next : Next (Place K V W) (K × (V × W))
  join_next ((k, (vs, ws)), (i, j)) =
      if leb (length vs) i || length ws == 0
      then (none, ((k, (vs, ws)), (i, j)))
      else elim (get_elem? vs i) [
        | none ↦ (none, ((k, (vs, ws)), (i, j)))
        | some v ↦ elim (get_elem? ws j) [
          | none ↦ (none, ((k, (vs, ws)), (i, j)))
          | some w ↦ (some (k, (v, w)), ((k, (vs, ws)), advance (length ws) i j))
        ]
      ]

  -- The iterator of NewLeftOuterJoinRDD over a group.
  unfoldable pub left_outer_join_next : Next (Place K V W) (K × (V × Option W))
  left_outer_join_next ((k, (vs, ws)), (i, j)) =
      if leb (length vs) i then (none, ((k, (vs, ws)), (i, j))) else elim (get_elem? vs i) [
        | none ↦ (none, ((k, (vs, ws)), (i, j)))
        | some v ↦
            if length ws == 0
            then (some (k, (v, none)), ((k, (vs, ws)), (i + 1, j)))
            else elim (get_elem? ws j) [
              | none ↦ (none, ((k, (vs, ws)), (i, j)))
              | some w ↦ (some (k, (v, some w)), ((k, (vs, ws)), advance (length ws) i j))
            ]
      ]

  -- The iterator of NewFullOuterJoinRDD over a group.
  unfoldable pub full_outer_join_next : Next (Place K V W) (K × (Option V × Option W))
  full_outer_join_next ((k, (vs, ws)), (i, j)) =
      if length vs == 0
      then (if leb (length ws) j then (none, ((k, (vs, ws)), (i, j))) else elim (get_elem? ws j) [
        | none ↦ (none, ((k, (vs, ws)), (i, j)))
        | some w ↦ (some (k, (none, some w)), ((k, (vs, ws)), (i, j + 1)))
      ])
      else if leb (length vs) i
      then (none, ((k, (vs, ws)), (i, j)))
      else elim (get_elem? vs i) [
        | none ↦ (none, ((k, (vs, ws)), (i, j)))
        | some v ↦
            if length ws == 0
            then (some (k, (some v, none)), ((k, (vs, ws)), (i + 1, j)))
            else elim (get_elem? ws j) [
              | none ↦ (none, ((k, (vs, ws)), (i, j)))
              | some w ↦ (some (k, (some v, some w)), ((k, (vs, ws)), advance (length ws) i j))
            ]
      ]

  -- The iterator of NewSubtractByKeyRDD over a group; `none` is EmptyIterator.
  abbrev pub subtract_start : Cogroup K V W → Option (K × (List V × ℕ))
  subtract_start (k, (vs, [])) = some (k, (vs, 0))
  subtract_start (k, (vs, w ∷ ws)) = none

module _ {K V : Type 0} where
  unfoldable pub subtract_next : Next (Option (K × (List V × ℕ))) (K × V)
  unfolding map_iterator slice_iterator
  subtract_next none = (none, none)
  subtract_next (some (k, (vs, i))) =
      let (v, i') = map_iterator (slice_iterator vs) (λ x. (k, x)) i in (v, some (k, (vs, i')))

module _ {K V W : Type 0} ⦃e : Eq K⦄ (less : K → K → Bool) (fuel : ℕ) where
  -- The iterator of a partition of NewJoinRDD.
  abbrev pub inner_join :
      Next (Option (Place K V W) × (List (K × List V) × List (K × List W))) (K × (V × W))
  inner_join = expand_iterator (cogroup_next less) join_next fuel start_place

  -- Of NewLeftOuterJoinRDD.
  abbrev pub left_outer_join :
      Next (Option (Place K V W) × (List (K × List V) × List (K × List W))) (K × (V × Option W))
  left_outer_join = expand_iterator (cogroup_next less) left_outer_join_next fuel start_place

  -- Of NewFullOuterJoinRDD.
  abbrev pub full_outer_join :
      Next
        (Option (Place K V W) × (List (K × List V) × List (K × List W)))
        (K × (Option V × Option W))
  full_outer_join = expand_iterator (cogroup_next less) full_outer_join_next fuel start_place

  -- Of NewSubtractByKeyRDD.
  abbrev pub subtract_by_key :
      Next (Option (Option (K × (List V × ℕ))) × (List (K × List V) × List (K × List W))) (K × V)
  subtract_by_key = expand_iterator (cogroup_next less) subtract_next fuel subtract_start

-- Of NewRightOuterJoinRDD, which swaps the sides.
module _ {K V W : Type 0} ⦃e : Eq K⦄ (less : K → K → Bool) (fuel : ℕ) where
  abbrev pub right_outer_join :
      Next (Option (Place K W V) × (List (K × List W) × List (K × List V))) (K × (Option V × W))
  right_outer_join = map_iterator (left_outer_join less fuel) (λ p. (p.0, (p.1.1, p.1.0)))
