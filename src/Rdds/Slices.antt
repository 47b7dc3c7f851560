-- ===== src/Rdds/Slices.antt =====
-- rdd_creators.go: the slices of Parallelize against Collect.
use native.Mathlib.Nat.{mul-le-mul_right, mul-div_cancel_left, div-mul-le_self, le-div_iff_mul-le}
use mathlib.Core.Option
use go_spark.Prelude.{
  ℕ, zero, suc, ◌+◌, ◌-◌, ◌*◌, ◌/◌, ◌≤◌, ◌<◌, ◌≡◌, ◌%◌, ◌^◌, leb, ltb, true, some, refl, ap, subst,
  ◌∙◌, sym, List, [], ◌∷◌, ◌++◌, arith, length, take, drop, select, flatten, take-append-drop,
}
use go_spark.Rdds.{
  Partitions, quotient, slice_between, slices_from, clamp, slice_data, is_filled, or_empty,
  parallel_collection, collect,
}

clamp_pos : (n len : ℕ) → 0 < len → 0 < clamp n len
clamp_pos n len pos = ground arith

leb-true : (a b : ℕ) → a ≤ b → leb a b ≡ true
leb-true a b le = ground (arith, le)

quotient_small : (p n : ℕ) → p < 2 ^ 63 → quotient p n ≡ some (p / n)
quotient_small p n small =
    let whole : p % 2 ^ 64 ≡ p = omega (arith, small) in
    let positive : ltb p (2 ^ 63) ≡ true = ground (arith, small) in rw (whole, positive) refl

module _ {ℓ} {T : Type ℓ} where
  drop-nil : (n : ℕ) → drop {A = T} n [] ≡ []
  drop-nil zero = refl
  drop-nil (suc n) = refl

  drop-drop : (a b : ℕ) (xs : List T) → drop a (drop b xs) ≡ drop (b + a) xs
  drop-drop a zero xs = ap (λ n. drop n xs) (omega arith)
  drop-drop a (suc b) [] = drop-nil a ∙ sym (drop-nil (suc b + a))
  drop-drop a (suc b) (x ∷ xs) =
      drop-drop a b xs ∙ ap (λ n. drop n (x ∷ xs)) {x = suc (b + a)} (omega arith)

  take-drop : (a b : ℕ) (xs : List T) → a ≤ b → take (b - a) (drop a xs) ++ drop b xs ≡ drop a xs
  take-drop a b xs le =
      let whole : a + (b - a) ≡ b = omega arith in
      ap (λ n. take (b - a) (drop a xs) ++ drop n xs) (sym whole)
      ∙ ap (λ l. take (b - a) (drop a xs) ++ l) (sym (drop-drop (b - a) a xs))
      ∙ take-append-drop (b - a) (drop a xs)

  drop-length : (xs : List T) → drop (length xs) xs ≡ []
  drop-length [] = refl
  drop-length (x ∷ xs) = drop-length xs

  -- The slices, where no product wraps.
  exact_slices : ℕ → ℕ → ℕ → List T → Partitions T
  exact_slices zero i n records = []
  exact_slices (suc c) i n records =
      take ((i + 1) * length records / n - i * length records / n)
        (drop (i * length records / n) records)
      ∷ exact_slices c (i + 1) n records

  exact_data : List T → ℕ → Partitions T
  unfolding exact_slices
  exact_data [] n = [] ∷ []
  exact_data (x ∷ xs) n = let m = clamp n (length (x ∷ xs)) in exact_slices m 0 m (x ∷ xs)

  flatten-exact_slices :
      (c i n : ℕ) (records : List T)
      → 0 < n
      → i + c ≡ n
      → flatten (exact_slices c i n records) ≡ drop (i * length records / n) records
  unfolding flatten exact_slices
  flatten-exact_slices zero i n records pos e =
      let last : i ≡ n = omega arith in
      let all : i * length records / n ≡ length records =
        ap (λ m. m * length records / n) last ∙ mul-div_cancel_left (length records) pos in
      sym (ap (λ m. drop m records) all ∙ drop-length records)
  flatten-exact_slices (suc c) i n records pos e =
      let le : i * length records / n ≤ (i + 1) * length records / n =
        (le-div_iff_mul-le {x = i * length records / n} {y = (i + 1) * length records} pos).1
          (omega (arith, div-mul-le_self (i * length records) n)) in
      ap
        (λ l.
          take ((i + 1) * length records / n - i * length records / n)
            (drop (i * length records / n) records)
          ++ l)
        (flatten-exact_slices c (i + 1) n records pos (omega arith))
      ∙ take-drop _ _ records le

  slices_from-exact :
      (c i n : ℕ) (records : List T)
      → 0 < n
      → i + c ≡ n
      → n * length records < 2 ^ 63
      → slices_from c i n records ≡ some (exact_slices c i n records)
  unfolding slices_from exact_slices
  slices_from-exact zero i n records pos e few = refl
  slices_from-exact (suc c) i n records pos e few =
      let len = length records in
      let start = i * len / n in
      let end = (i + 1) * len / n in
      let rest = slices_from c (i + 1) n records in
      let ends : (i + 1) * len ≤ n * len = mul-le-mul_right len (omega (arith, e)) in
      let fits_start : i * len < 2 ^ 63 = omega (arith, ends, few) in
      let fits_end : (i + 1) * len < 2 ^ 63 = omega (arith, ends, few) in
      let ascends : leb start end ≡ true = leb-true start end (
        (le-div_iff_mul-le {x = start} {y = (i + 1) * len} pos).1
          (omega (arith, div-mul-le_self (i * len) n))) in
      let within : leb end len ≡ true = leb-true end len (
        subst (λ k. end ≤ k) (mul-div_cancel_left len pos)
          ((le-div_iff_mul-le {x = end} {y = n * len} pos).1
            (omega (arith, div-mul-le_self ((i + 1) * len) n, ends)))) in
      ap (λ q. slice_between records q (quotient ((i + 1) * len) n) rest)
        (quotient_small (i * len) n fits_start)
      ∙ ap (λ q. slice_between records (some start) q rest)
          (quotient_small ((i + 1) * len) n fits_end)
      ∙ ap (slice_between records (some start) (some end))
          (slices_from-exact c (i + 1) n records pos (omega (arith, e)) few)
      ∙ rw (ascends, within) refl

  -- The slices, one after the other, are the records.
  flatten-exact_data : (records : List T) (n : ℕ) → flatten (exact_data records n) ≡ records
  unfolding flatten exact_data
  flatten-exact_data [] n = refl
  flatten-exact_data (x ∷ xs) n =
      let m = clamp n (length (x ∷ xs)) in
      let start : 0 * length (x ∷ xs) / m ≡ 0 = ground arith in
      flatten-exact_slices m 0 m (x ∷ xs) (clamp_pos n (length (x ∷ xs)) (omega arith))
        (omega arith)
      ∙ ap (λ k. drop k (x ∷ xs)) start

  slice_data-exact :
      (records : List T) (n : ℕ)
      → clamp n (length records) * length records < 2 ^ 63
      → slice_data records n ≡ some (exact_data records n)
  unfolding slice_data exact_data
  slice_data-exact [] n few = refl
  slice_data-exact (x ∷ xs) n few =
      let m = clamp n (length (x ∷ xs)) in
      slices_from-exact m 0 m (x ∷ xs) (clamp_pos n (length (x ∷ xs)) (omega arith)) (omega arith)
        few

  flatten-filled : (parts : Partitions T) → flatten (select is_filled parts) ≡ flatten parts
  unfolding flatten
  flatten-filled [] = refl
  flatten-filled ([] ∷ parts) = flatten-filled parts
  flatten-filled ((x ∷ xs) ∷ parts) = ap (λ l. (x ∷ xs) ++ l) (flatten-filled parts)

  flatten-or_empty : (parts : Partitions T) → flatten (or_empty parts) ≡ flatten parts
  unfolding flatten
  flatten-or_empty [] = refl
  flatten-or_empty (p ∷ parts) = refl

  -- If the product of the number of records and the number of slices, of which there are at most as
  -- many as records, is less than 2 ^ 63, Parallelize does not panic, and Collect returns the
  -- records that it was given, in their order.
  pub parallel_collection-collect :
      (records : List T) (n : ℕ)
      → clamp n (length records) * length records < 2 ^ 63
      → (parts : Partitions T) × (parallel_collection records n ≡ some parts)
        × (collect parts ≡ records)
  unfolding collect parallel_collection
  parallel_collection-collect records n few = (
    or_empty (select is_filled (exact_data records n)),
    ap (Option.map (λ slices. or_empty (select is_filled slices))) (slice_data-exact records n few),
    flatten-or_empty (select is_filled (exact_data records n))
        ∙ flatten-filled (exact_data records n)
        ∙ flatten-exact_data records n,
  )
