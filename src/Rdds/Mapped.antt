-- ===== src/Rdds/Mapped.antt =====
-- rdd_transformations.go and cartesian_rdd.go: the transformations against Collect and Count.
use go_spark.Prelude.{
  ◌+◌, ◌*◌, ◌≡◌, refl, ap, ap₂, ◌∙◌, sym, Bool, List, [], ◌∷◌, ◌++◌, arith, length, select, map,
  flat_map, flatten, map-append, append_assoc, select-append, length-append, length-map,
}
use go_spark.Rdds.{
  Partitions, map_rdd, filter_rdd, flat_map_rdd, union, collect, count, pairs, cartesian,
}

module _ {ℓ κ} {T : Type ℓ} {U : Type κ} where
  -- The records of a mapped RDD are the images of the records, in their order.
  map_rdd-collect :
      (fn : T → U) (parts : Partitions T) → collect (map_rdd fn parts) ≡ map fn (collect parts)
  unfolding collect map_rdd flatten
  map_rdd-collect fn [] = refl
  map_rdd-collect fn (p ∷ parts) =
      ap (λ l. map fn p ++ l) (map_rdd-collect fn parts) ∙ sym (map-append fn p (flatten parts))

  flat_map-append :
      (fn : T → List U) (xs ys : List T) → flat_map fn (xs ++ ys) ≡ flat_map fn xs ++ flat_map fn ys
  unfolding flat_map
  flat_map-append fn [] ys = refl
  flat_map-append fn (x ∷ xs) ys =
      ap (λ l. fn x ++ l) (flat_map-append fn xs ys)
      ∙ sym (append_assoc (fn x) (flat_map fn xs) (flat_map fn ys))

  flat_map_rdd-collect :
      (fn : T → List U) (parts : Partitions T)
      → collect (flat_map_rdd fn parts) ≡ flat_map fn (collect parts)
  unfolding collect flat_map_rdd flatten flat_map
  flat_map_rdd-collect fn [] = refl
  flat_map_rdd-collect fn (p ∷ parts) =
      ap (λ l. flat_map fn p ++ l) (flat_map_rdd-collect fn parts)
      ∙ sym (flat_map-append fn p (flatten parts))

filter_rdd-collect {ℓ} :
    {T : Type ℓ} (fn : T → Bool) (parts : Partitions T)
    → collect (filter_rdd fn parts) ≡ select fn (collect parts)
unfolding collect filter_rdd flatten
filter_rdd-collect fn [] = refl
filter_rdd-collect fn (p ∷ parts) =
    ap (λ l. select fn p ++ l) (filter_rdd-collect fn parts)
    ∙ sym (select-append fn p (flatten parts))

-- Collect of a mapped, filtered or flat-mapped RDD is the map, filter or flat map of the records, in
-- their order.
pub collect-transformed {ℓ κ} :
    {T : Type ℓ} {U : Type κ} (fn : T → U) (keep : T → Bool) (many : T → List U)
    (parts : Partitions T)
    → (collect (map_rdd fn parts) ≡ map fn (collect parts))
      × (collect (filter_rdd keep parts) ≡ select keep (collect parts))
      × (collect (flat_map_rdd many parts) ≡ flat_map many (collect parts))
collect-transformed fn keep many parts =
    (map_rdd-collect fn parts, filter_rdd-collect keep parts, flat_map_rdd-collect many parts)

count-append {ℓ} : {T : Type ℓ} (xs ys : Partitions T) → count (xs ++ ys) ≡ count xs + count ys
unfolding count
count-append [] ys = omega arith
count-append (p ∷ xs) ys = omega (arith, count-append xs ys)

module _ {ℓ κ} {T : Type ℓ} {U : Type κ} where
  length-pairs :
      (left : List T) (right : List U) → length (pairs left right) ≡ length left * length right
  unfolding pairs
  length-pairs [] right = omega arith
  length-pairs (l ∷ left) right =
      length-append (map (λ r. (l, r)) right) (pairs left right)
      ∙ ap₂ ◌+◌ (length-map (λ r. (l, r)) right) (length-pairs left right)
      ∙ ground arith

  count-map-pairs :
      (p : List T) (right : Partitions U) → count (map (pairs p) right) ≡ length p * count right
  unfolding count
  count-map-pairs p [] = omega arith
  count-map-pairs p (q ∷ right) =
      ap₂ ◌+◌ (length-pairs p q) (count-map-pairs p right) ∙ ground arith

  -- The Cartesian product has a partition for each pair of partitions, and a record for each pair of
  -- records.
  pub count-cartesian :
      (left : Partitions T) (right : Partitions U)
      → (length (cartesian left right) ≡ length left * length right)
        × (count (cartesian left right) ≡ count left * count right)
  unfolding cartesian count
  count-cartesian [] right = (omega arith, omega arith)
  count-cartesian (p ∷ left) right =
      let (parts, records) = count-cartesian left right in
      (
        length-append (map (pairs p) right) (cartesian left right)
            ∙ ap₂ ◌+◌ (length-map (pairs p) right) parts
            ∙ ground arith,
        count-append (map (pairs p) right) (cartesian left right)
            ∙ ap₂ ◌+◌ (count-map-pairs p right) records
            ∙ ground arith,
      )

-- Count is the number of the records that Collect returns.
pub count_lem {ℓ} : {T : Type ℓ} (parts : Partitions T) → count parts ≡ length (collect parts)
unfolding count collect flatten
count_lem [] = refl
count_lem (p ∷ parts) = omega (arith, count_lem parts, length-append p (flatten parts))

flatten-append {ℓ} :
    {T : Type ℓ} (xs ys : Partitions T) → flatten (xs ++ ys) ≡ flatten xs ++ flatten ys
unfolding flatten
flatten-append [] ys = refl
flatten-append (x ∷ xs) ys =
    ap (λ l. x ++ l) (flatten-append xs ys) ∙ sym (append_assoc x (flatten xs) (flatten ys))

collect-flatten {ℓ} :
    {T : Type ℓ} (rdds : List (Partitions T)) → flatten (flatten rdds) ≡ flatten (map collect rdds)
unfolding collect flatten
collect-flatten [] = refl
collect-flatten (r ∷ rdds) =
    flatten-append r (flatten rdds) ∙ ap (λ l. flatten r ++ l) (collect-flatten rdds)

-- Collect of a union is Collect of its first RDD, followed by Collect of each of the others.
pub collect-union {ℓ} :
    {T : Type ℓ} (first : Partitions T) (rdds : List (Partitions T))
    → collect (union first rdds) ≡ collect first ++ flatten (map collect rdds)
unfolding union collect
collect-union first rdds =
    flatten-append first (flatten rdds) ∙ ap (λ l. flatten first ++ l) (collect-flatten rdds)
