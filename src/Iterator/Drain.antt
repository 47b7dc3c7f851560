-- ===== src/Iterator/Drain.antt =====
-- The loops that use an iterator up: CollectIterator, CountIterator, ReduceIterator, TakeIterator.
use mathlib.Core.List.{foldl}
use go_spark.Prelude.{
  ℕ, zero, suc, ◌+◌, ◌<◌, ◌≡◌, ap, ◌∙◌, Option, none, some, List, [], ◌∷◌, ◌++◌, arith, length,
  take, append-nil, append_assoc,
}
use go_spark.Iterator.{
  Next, collect_iterator, count_iterator, fold_iterator, reduce_iterator, take_iterator,
}
use go_spark.Iterator.Yields.{Yields, done, more}

module _ {ℓ κ} {S : Type ℓ} {T : Type κ} (next : Next S T) where
  collect_iterator_from :
      (fuel : ℕ) (result : List T) {s : S} {xs : List T}
      → Yields next s xs
      → length xs < fuel
      → collect_iterator next fuel result s ≡ some (result ++ xs)
  unfolding collect_iterator
  collect_iterator_from zero result y h = elim h [ ]
  collect_iterator_from (suc f) result (done e) h = ground (arith, append-nil result)
  collect_iterator_from (suc f) result (more {x} {xs} e y) h = ground (
    arith,
    collect_iterator_from f (result ++ x ∷ []) y (omega arith),
    append_assoc result (x ∷ []) xs,
  )

  -- If an iterator yields a list, CollectIterator ends, with more fuel than there are records, and
  -- returns the list.
  pub collect_iterator_lem :
      (fuel : ℕ) {s : S} {xs : List T}
      → Yields next s xs
      → length xs < fuel
      → collect_iterator next fuel [] s ≡ some xs
  collect_iterator_lem fuel y h = collect_iterator_from fuel [] y h

  count_iterator_from :
      (fuel count : ℕ) {s : S} {xs : List T}
      → Yields next s xs
      → length xs < fuel
      → count_iterator next fuel count s ≡ some (count + length xs)
  unfolding count_iterator
  count_iterator_from zero count y h = elim h [ ]
  count_iterator_from (suc f) count (done e) h = ground arith
  count_iterator_from (suc f) count (more e y) h =
      ground (arith, count_iterator_from f (count + 1) y (omega arith))

  -- If an iterator yields a list, CountIterator ends, with more fuel than there are records, and
  -- returns the number of the records.
  pub count_iterator_lem :
      (fuel : ℕ) {s : S} {xs : List T}
      → Yields next s xs
      → length xs < fuel
      → count_iterator next fuel 0 s ≡ some (length xs)
  count_iterator_lem fuel y h = count_iterator_from fuel 0 y h ∙ ap some (omega arith)

  pub fold_iterator_lem {μ} :
      {U : Type μ} (fn : U → T → U) (fuel : ℕ) (acc : U) {s : S} {xs : List T}
      → Yields next s xs
      → length xs < fuel
      → fold_iterator next fuel fn acc s ≡ some (foldl fn acc xs)
  unfolding fold_iterator
  fold_iterator_lem fn zero acc y h = elim h [ ]
  fold_iterator_lem fn (suc f) acc (done e) h = ground arith
  fold_iterator_lem fn (suc f) acc (more {x} e y) h =
      ground (arith, fold_iterator_lem fn f (fn acc x) y (omega arith))

  -- The reduction of a list from its first record on, if there is one.
  abbrev pub reduce : (T → T → T) → List T → Option T
  reduce fn [] = none
  reduce fn (x ∷ xs) = some (foldl fn x xs)

  -- If an iterator yields a list, ReduceIterator ends, with more fuel than there are records, and
  -- reduces the records from the left; it reports that there are none.
  pub reduce_iterator_lem :
      (fn : T → T → T) (fuel : ℕ) {s : S} {xs : List T}
      → Yields next s xs
      → length xs < fuel
      → reduce_iterator next fuel fn s ≡ some (reduce fn xs)
  unfolding reduce_iterator
  reduce_iterator_lem fn fuel (done e) h = ground arith
  reduce_iterator_lem fn fuel (more {s'} {x} {xs} e y) h =
      let folded : fold_iterator next fuel fn x s' ≡ some (foldl fn x xs) =
        fold_iterator_lem fn fuel x y (omega arith) in
      ground arith

  take_iterator_from :
      (n : ℕ) (result : List T) {s : S} {xs : List T}
      → Yields next s xs
      → take_iterator next n result s ≡ result ++ take n xs
  unfolding take_iterator
  take_iterator_from zero result y = ground (arith, append-nil result)
  take_iterator_from (suc n) result (done e) = ground (arith, append-nil result)
  take_iterator_from (suc n) result (more {x} {xs} e y) =
      ground
        (arith, take_iterator_from n (result ++ x ∷ []) y, append_assoc result (x ∷ []) (take n xs))

  -- If an iterator yields a list, TakeIterator returns its first n records, or all if there are
  -- fewer.
  pub take_iterator_lem :
      (n : ℕ) {s : S} {xs : List T} → Yields next s xs → take_iterator next n [] s ≡ take n xs
  take_iterator_lem n y = take_iterator_from n [] y
