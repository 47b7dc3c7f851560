-- ===== src/Tests/Collecting.antt =====
-- The RDD operations on an RDD of three partitions, one of them empty.
use mathlib.Core.List.{Perm}
use go_spark.Prelude.{
  some, ◌==◌, ℕ, ◌+◌, ◌≡◌, List, [], ◌∷◌, arith, ltb, select, false, inl, inr, Bool-cases,
}
use go_spark.Prelude.Results.{ok}
use go_spark.Prelude.Maps.{nat_eq}
use go_spark.Order.{WeakOrder}
use go_spark.ExternalSort.{Budget}
use go_spark.Aggregate.{aggregate_pairs}
use go_spark.Aggregate.Records.{records_of}
use go_spark.Aggregate.Groups.{FitsAll, combined, aggregate_pairs_lem}
use go_spark.Rdds.{
  Partitions, parallel_collection, collect, reduce, reduce_records, coalesce, tree_aggregate,
  tree_aggregate_action, merge_task_partials,
}
use go_spark.Rdds.Slices.{parallel_collection-collect}
use go_spark.Rdds.Folds.{reduce_lem, merge_task_partials-aggregate}
use go_spark.Rdds.Coalesced.{coalesce-perm}

abbrev parts : Partitions ℕ
parts = (1 ∷ 2 ∷ []) ∷ [] ∷ (3 ∷ []) ∷ []

abbrev some_records : List ℕ
some_records = 5 ∷ 6 ∷ 7 ∷ []

add_is_assoc : (a b c : ℕ) → a + b + c ≡ a + (b + c)
add_is_assoc a b c = omega arith

parallel_collection-collect_example :
    (parts : Partitions ℕ) × (parallel_collection some_records 2 ≡ some parts)
    × (collect parts ≡ some_records)
parallel_collection-collect_example = parallel_collection-collect some_records 2 (omega arith)

reduce_lem_example : reduce ◌+◌ parts ≡ reduce_records ◌+◌ (collect parts)
reduce_lem_example = reduce_lem ◌+◌ add_is_assoc parts

merge_task_partials-aggregate_example :
    merge_task_partials (tree_aggregate_action 0 ◌+◌ ◌+◌) parts
    ≡ ok (tree_aggregate 0 ◌+◌ ◌+◌ parts ∷ [])
merge_task_partials-aggregate_example = merge_task_partials-aggregate 0 ◌+◌ ◌+◌ parts

coalesce-perm_example :
    (out : Partitions ℕ) × (coalesce 2 parts ≡ some out) × Perm (collect out) (collect parts)
coalesce-perm_example = coalesce-perm 2 parts (omega arith)

abbrev token_budget : Budget
token_budget = record { record_bytes = 16; memory_bytes = 100 }

abbrev words : List (ℕ × ℕ)
words = (2, 10) ∷ (1, 20) ∷ (2, 30) ∷ []

token_order : WeakOrder ltb
token_order = record {
  irrefl = λ a. ground arith;
  trans = λ a b c h k. ground arith;
  negtrans = λ a b c h k. ground arith;
}

-- A combiner takes as many bytes as it counts.
words_fit : (j : ℕ) → FitsAll (λ v. v) ◌+◌ (λ c. c) 40 (records_of j words)
words_fit j = elim (Bool-cases (2 == j)) [
  | inl two ↦
      let not_one : (1 == j) ≡ false = ground (arith, two) in
      rw (two, not_one) (omega arith, omega arith)
  | inr other ↦ elim (Bool-cases (1 == j)) [
    | inl one ↦ rw (other, one) (omega arith)
    | inr neither ↦ rw (other, neither) tt
  ]
]

aggregate_pairs_lem_example :
    (out : List (ℕ × ℕ)) × (aggregate_pairs (λ v. v) ◌+◌ (λ c. c) 40 ltb (λ r. 8) token_budget words
      ≡ ok out)
    × ((j : ℕ) → select (λ r. r.0 == j) out ≡ combined (λ v. v) ◌+◌ j (records_of j words))
aggregate_pairs_lem_example =
    aggregate_pairs_lem (λ v. v) ◌+◌ ltb token_order (λ a b h k. ground arith) (λ c. c) 40 (λ r. 8)
      token_budget words
      ((omega arith, omega arith), ((omega arith, omega arith), ((omega arith, omega arith), tt)))
      words_fit
