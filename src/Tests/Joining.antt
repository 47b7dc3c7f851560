-- ===== src/Tests/Joining.antt =====
-- The joins of two small RDDs, as the streams of one reduce task each.
use go_spark.Prelude.{ℕ, ◌≡◌, refl, false, none, List, [], ◌∷◌, arith, ltb}
use go_spark.Prelude.Maps.{nat_eq}
use go_spark.Prelude.Results.{ok}
use go_spark.Order.{WeakOrder}
use go_spark.ExternalSort.{Budget, external_sort}
use go_spark.Joins.{Sizes, cogroup_groups, inner_join, full_outer_join, subtract_by_key}
use go_spark.Joins.Pairs.{inner_rows, full_outer_rows, subtract_rows}
use go_spark.Joins.Joined.{Readable, YieldsRows}
use go_spark.Joins.Rows.{
  inner_join-YieldsRows, full_outer_join-YieldsRows, subtract_by_key-YieldsRows,
}

less_order : WeakOrder ltb
less_order = record {
  irrefl = λ a. ground arith;
  trans = λ a b c h k. ground arith;
  negtrans = λ a b c h k. ground arith;
}

ties : (a b : ℕ) → ltb a b ≡ false → ltb b a ≡ false → a ≡ b
ties a b h k = ground arith

abbrev budget : Budget
budget = record { record_bytes = 16; memory_bytes = 100 }

abbrev sizes : Sizes ℕ ℕ
sizes = record { encoded = λ v. 1; record_size = λ r. 8 }

abbrev users : List (ℕ × ℕ)
users = (2, 20) ∷ (1, 10) ∷ (2, 21) ∷ []

abbrev orders : List (ℕ × ℕ)
orders = (3, 300) ∷ (2, 200) ∷ (2, 201) ∷ []

two_groups :
    cogroup_groups ltb sizes sizes budget 200 users orders
    ≡ ok ((1, 10 ∷ []) ∷ (2, 20 ∷ 21 ∷ []) ∷ [], (2, 200 ∷ 201 ∷ []) ∷ (3, 300 ∷ []) ∷ [])
unfolding cogroup_groups external_sort
two_groups = refl

users-Readable : Readable ltb less_order budget 200 sizes users
users-Readable = (
  ((omega arith, omega arith), ((omega arith, omega arith), ((omega arith, omega arith), tt))),
  λ j. ground arith,
)

orders-Readable : Readable ltb less_order budget 200 sizes orders
orders-Readable = (
  ((omega arith, omega arith), ((omega arith, omega arith), ((omega arith, omega arith), tt))),
  λ j. ground arith,
)

inner_join-YieldsRows_example :
    YieldsRows ltb less_order ties sizes sizes budget 200
      (inner_join ltb 7)
      (λ g. (none, g))
      inner_rows
      users
      orders
inner_join-YieldsRows_example =
    inner_join-YieldsRows ltb less_order ties sizes sizes budget 200 6 users orders users-Readable
      orders-Readable (omega arith)

full_outer_join-YieldsRows_example :
    YieldsRows ltb less_order ties sizes sizes budget 200
      (full_outer_join ltb 7)
      (λ g. (none, g))
      full_outer_rows
      users
      orders
full_outer_join-YieldsRows_example =
    full_outer_join-YieldsRows ltb less_order ties sizes sizes budget 200 6 users orders
      users-Readable orders-Readable (omega arith)

subtract_by_key-YieldsRows_example :
    YieldsRows ltb less_order ties sizes sizes budget 200
      (subtract_by_key ltb 7)
      (λ g. (none, g))
      subtract_rows
      users
      orders
subtract_by_key-YieldsRows_example =
    subtract_by_key-YieldsRows ltb less_order ties sizes sizes budget 200 6 users orders
      users-Readable orders-Readable (omega arith)
