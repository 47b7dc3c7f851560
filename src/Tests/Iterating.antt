-- ===== src/Tests/Iterating.antt =====
-- The iterators over a slice of three numbers.
use go_spark.Prelude.{ℕ, List, [], ◌∷◌}
use go_spark.Iterator.{Next, slice_iterator}

abbrev slice : List ℕ
slice = 1 ∷ 2 ∷ 3 ∷ []

abbrev next : Next ℕ ℕ
next = slice_iterator slice
