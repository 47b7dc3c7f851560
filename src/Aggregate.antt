-- ===== src/Aggregate.antt =====
-- external_aggregate.go: aggregatePairs, which sorts the records of a reduce task by the tokens of their
-- keys and folds the values of each key. `less` compares tokens; what keyToken writes is a parameter.
pub mod Records
pub mod Groups
use go_spark.Prelude.{ℕ, Bool, List, [], ◌∷◌, leb, if◌then◌else◌}
use go_spark.Prelude.Maps.{Eq}
use go_spark.Prelude.Results.{Result, ok, err, guard, ◌>>=◌, ◌>>◌}
use go_spark.ExternalSort.{SortError, Budget, external_sort}

pub data AggregateError : Type 0 where
  sort_error : SortError → AggregateError
  group_limit : AggregateError

abbrev pub key_less {ℓ κ} : {K : Type ℓ} {V : Type κ} → (K → K → Bool) → K × V → K × V → Bool
key_less less a b = less a.0 b.0

module _ {ℓ κ μ} {K : Type ℓ} {V : Type κ} {C : Type μ} ⦃e : Eq K⦄ (create : V → C)
    (merge : C → V → C) (size : C → ℕ) (limit : ℕ) where
  -- The iterator from a key and its combiner so far on; each new combiner is checked against the limit.
  -- A record of another key is the first of the next group.
  pub group_from : K → C → List (K × V) → Result AggregateError (List (K × C))
  group_from k acc [] = guard (leb (size acc) limit) group_limit >> ok ((k, acc) ∷ [])
  group_from k acc ((j, v) ∷ rest) =
      let same = group_from k (merge acc v) rest in
      let next = group_from j (create v) rest >>= λ out. ok ((k, acc) ∷ out) in
      guard (leb (size acc) limit) group_limit >> (if e.beq j k then same else next)

  -- What the iterator yields of a sorted stream.
  pub group : List (K × V) → Result AggregateError (List (K × C))
  unfolding group_from
  group [] = ok []
  group ((k, v) ∷ rest) = group_from k (create v) rest

  abbrev pub group_sorted :
      Result SortError (List (K × V) × ℕ) → Result AggregateError (List (K × C))
  group_sorted (ok (sorted, n)) = group sorted
  group_sorted (err s) = err (sort_error s)

  -- aggregatePairs of the stream of a reduce task.
  unfoldable pub aggregate_pairs :
      (K → K → Bool) → (K × V → ℕ) → Budget → List (K × V) → Result AggregateError (List (K × C))
  unfolding group
  aggregate_pairs less record_size b stream =
      group_sorted (external_sort (key_less less) record_size b stream)
