-- ===== src/Rdds/Folds.antt =====
-- rdd_actions.go and tree_actions.go: the actions that fold the partitions against a fold of all
-- records.
use mathlib.Core.List.{foldl, foldl-append}
use go_spark.Prelude.{
  ℕ, zero, suc, ◌+◌, ◌-◌, ◌≤◌, ◌≡◌, refl, ap, ◌∙◌, sym, inl, inr, Option, none, some, List, [], ◌∷◌,
  ◌++◌, arith, leb, length, take, map, flatten, Bool-cases, length-append, length-take, append-nil,
  append_assoc,
}
use go_spark.Prelude.Results.{ok, ◌>>=◌}
use go_spark.Rdds.{
  Partitions, collect, reduce_records, merge_valid, reduce, fold, take_loop, take_records,
  tree_aggregate, tree_aggregate_action, tree_reduce_action, partial_records, merge_partials,
  merge_tree_results, merge_task_partials,
}

module _ {ℓ} {T : Type ℓ} (fn : T → T → T)
    (assoc : (a b c : T) → fn (fn a b) c ≡ fn a (fn b c)) where
  -- a fold from a record on is that record with the fold of the others
  foldl-fn : (a x : T) (xs : List T) → foldl fn (fn a x) xs ≡ fn a (foldl fn x xs)
  foldl-fn a x [] = refl
  foldl-fn a x (y ∷ xs) = ap (λ b. foldl fn b xs) (assoc a x y) ∙ foldl-fn a (fn x y) xs

  merge_valid-reduce_records :
      (acc : Option T) (xs ys : List T)
      → merge_valid fn (reduce_records fn xs) (reduce_records fn ys) ≡ reduce_records fn (xs ++ ys)
  merge_valid-reduce_records acc xs [] = ap (reduce_records fn) (sym (append-nil xs))
  merge_valid-reduce_records acc [] (y ∷ ys) = refl
  merge_valid-reduce_records acc (x ∷ xs) (y ∷ ys) =
      ap some (sym (foldl-fn (foldl fn x xs) y ys) ∙ sym (foldl-append fn x xs (y ∷ ys)))

  foldl-merge_valid :
      (done : List T) (parts : Partitions T)
      → foldl (merge_valid fn) (reduce_records fn done) (map (reduce_records fn) parts)
        ≡ reduce_records fn (done ++ flatten parts)
  unfolding flatten
  foldl-merge_valid done [] = ap (reduce_records fn) (sym (append-nil done))
  foldl-merge_valid done (p ∷ parts) =
      ap (λ acc. foldl (merge_valid fn) acc (map (reduce_records fn) parts))
        (merge_valid-reduce_records none done p)
      ∙ foldl-merge_valid (done ++ p) parts
      ∙ ap (reduce_records fn) (append_assoc done p (flatten parts))

  -- Reduce by an associative function is the reduction of all records in their order, wherever the
  -- partitions begin and end; it reports that there are none.
  pub reduce_lem : (parts : Partitions T) → reduce fn parts ≡ reduce_records fn (collect parts)
  unfolding reduce collect
  reduce_lem parts = foldl-merge_valid [] parts

  foldl-foldl :
      (init acc : T) (parts : Partitions T)
      → ((a : T) → fn a init ≡ a)
      → foldl fn acc (map (foldl fn init) parts) ≡ foldl fn acc (flatten parts)
  unfolding flatten
  foldl-foldl init acc [] right = refl
  foldl-foldl init acc (p ∷ parts) right =
      ap (λ a. foldl fn a (map (foldl fn init) parts))
        (sym (foldl-fn acc init p) ∙ ap (λ a. foldl fn a p) (right acc))
      ∙ foldl-foldl init (foldl fn acc p) parts right
      ∙ sym (foldl-append fn acc p (flatten parts))

  -- Fold by an associative function is the fold of all records, if the initial value is a right
  -- identity.
  pub fold_lem :
      (init : T) (parts : Partitions T)
      → ((a : T) → fn a init ≡ a)
      → fold init fn parts ≡ foldl fn init (collect parts)
  unfolding fold collect
  fold_lem init parts right = foldl-foldl init init parts right

module _ {ℓ} {T : Type ℓ} where
  take-full : (n : ℕ) (xs ys : List T) → n ≤ length xs → take n (xs ++ ys) ≡ take n xs
  take-full zero xs ys le = refl
  take-full (suc n) [] ys le = absurd (omega arith)
  take-full (suc n) (x ∷ xs) ys le = ap (◌∷◌ x) (take-full n xs ys (omega arith))

  take-all : (n : ℕ) (xs : List T) → length xs ≤ n → take n xs ≡ xs
  take-all zero [] le = refl
  take-all zero (x ∷ xs) le = absurd (omega arith)
  take-all (suc n) [] le = refl
  take-all (suc n) (x ∷ xs) le = ap (◌∷◌ x) (take-all n xs (omega arith))

  take-take : (n : ℕ) (xs ys : List T) → take n (take n xs ++ ys) ≡ take n (xs ++ ys)
  take-take zero xs ys = refl
  take-take (suc n) [] ys = refl
  take-take (suc n) (x ∷ xs) ys = ap (◌∷◌ x) (take-take n xs ys)

  -- taking a part of what follows is enough
  take-append_take :
      (n m : ℕ) (r p s : List T)
      → n ≡ length r + m
      → take n ((r ++ take m p) ++ s) ≡ take n (r ++ (p ++ s))
  take-append_take n m [] p s e =
      let same : n ≡ m = omega arith in
      ap (λ k. take k (take m p ++ s)) same ∙ take-take m p s ∙ ap (λ k. take k (p ++ s)) (sym same)
  take-append_take zero m (x ∷ r) p s e = absurd (omega arith)
  take-append_take (suc n) m (x ∷ r) p s e = ap (◌∷◌ x) (take-append_take n m r p s (omega arith))

  take_loop_lem :
      (n : ℕ) (parts : Partitions T) (result : List T)
      → length result ≤ n
      → take_loop n parts result ≡ take n (result ++ flatten parts)
  unfolding take_loop flatten
  take_loop_lem n [] result le = sym (ap (take n) (append-nil result) ∙ take-all n result le)
  take_loop_lem n (p ∷ parts) result le =
      let result' : List T = result ++ take (n - length result) p in
      let fits : length result' ≤ n = omega (
        arith,
        length-append result (take (n - length result) p),
        length-take (n - length result) p,
      ) in
      let goes_on = take-append_take n (n - length result) result p (flatten parts) (omega arith) in
      elim (Bool-cases (leb n (length result))) [
        | inl full ↦
            rw full
              (sym (take-full n result (p ++ flatten parts) (ground arith) ∙ take-all n result le))
        | inr more ↦ elim (Bool-cases (leb n (length result'))) [
          | inl full ↦
              rw (more, full) (sym (take-full n result' (flatten parts) (ground arith)) ∙ goes_on)
          | inr short ↦ rw (more, short) (take_loop_lem n parts result' fits ∙ goes_on)
        ]
      ]

  -- Take returns the first records of all partitions.
  pub take_records_lem :
      (n : ℕ) (parts : Partitions T) → take_records n parts ≡ take n (collect parts)
  unfolding take_records collect
  take_records_lem n parts = take_loop_lem n parts [] (omega arith)

module _ {ℓ} {T : Type ℓ} where
  merge_partials-reduce :
      (fn : T → T → T) (acc : Option T) (parts : Partitions T)
      → merge_partials fn acc (map (λ records. partial_records (reduce_records fn records)) parts)
        ≡ ok (foldl (merge_valid fn) acc (map (reduce_records fn) parts))
  unfolding merge_partials
  merge_partials-reduce fn acc [] = refl
  merge_partials-reduce fn acc ([] ∷ parts) = merge_partials-reduce fn acc parts
  merge_partials-reduce fn none ((x ∷ xs) ∷ parts) =
      merge_partials-reduce fn (some (foldl fn x xs)) parts
  merge_partials-reduce fn (some a) ((x ∷ xs) ∷ parts) =
      merge_partials-reduce fn (some (fn a (foldl fn x xs))) parts

  -- The job of a tree reduction never fails, and returns what Reduce does: no record if that finds
  -- none.
  pub merge_task_partials-reduce :
      (fn : T → T → T) (parts : Partitions T)
      → merge_task_partials (tree_reduce_action fn) parts ≡ ok (partial_records (reduce fn parts))
  unfolding merge_task_partials merge_tree_results reduce
  merge_task_partials-reduce fn parts =
      ap (λ m. m >>= λ acc. ok (partial_records acc)) (merge_partials-reduce fn none parts)

module _ {ℓ κ} {T : Type ℓ} {U : Type κ} (init : U) (seq_op : U → T → U) (comb_op : U → U → U) where
  merge_partials-aggregate :
      (acc : U) (parts : Partitions T)
      → merge_partials comb_op
          (some acc)
          (map (λ records. partial_records (some (foldl seq_op init records))) parts)
        ≡ ok (some (foldl comb_op acc (map (foldl seq_op init) parts)))
  unfolding merge_partials
  merge_partials-aggregate acc [] = refl
  merge_partials-aggregate acc (p ∷ parts) =
      merge_partials-aggregate (comb_op acc (foldl seq_op init p)) parts

  -- mergeTreeResults of the partials of a tree aggregation, one for each partition in their order,
  -- does not fail, and returns what TreeAggregate does.
  pub merge_task_partials-aggregate :
      (parts : Partitions T)
      → merge_task_partials (tree_aggregate_action init seq_op comb_op) parts
        ≡ ok (tree_aggregate init seq_op comb_op parts ∷ [])
  unfolding merge_task_partials merge_tree_results tree_aggregate
  merge_task_partials-aggregate parts =
      ap (λ m. m >>= λ acc. ok (partial_records acc)) (merge_partials-aggregate init parts)
