-- ===== src/Iterator/Yields.antt =====
-- What an iterator yields, as a relation, and each combinator of iterator.go against it.
use go_spark.Prelude.{
  ℕ, zero, suc, ◌<◌, ◌≡◌, refl, ◌∙◌, Bool, inl, inr, Option, none, some, List, [], get_elem?, ◌∷◌,
  ◌++◌, arith, map, flatten, flat_map, length, drop, select, Bool-cases,
}
use go_spark.Iterator.{
  Next, empty_iterator, slice_iterator, map_iterator, flat_map_iterator, filter_iterator,
  chain_iterators, expand_iterator,
}

-- From the state `s` on the calls give the records of the list, and then report the end.
pub data Yields {ℓ κ} {S : Type ℓ} {T : Type κ} (next : Next S T) : S → List T → Type (ℓ ⊔ κ) where
  done : {s s' : S} → next s ≡ (none, s') → Yields next s []
  more :
      {s s' : S} {x : T} {xs : List T}
      → next s ≡ (some x, s')
      → Yields next s' xs
      → Yields next s (x ∷ xs)

pub empty_iterator-Yields {ℓ κ} :
    {S : Type ℓ} {T : Type κ} (s : S) → Yields (empty_iterator {T = T}) s []
unfolding empty_iterator
empty_iterator-Yields s = done {s' = s} refl

module _ {ℓ} {T : Type ℓ} where
  pub drop_cons :
      (l r : List T) (x : T) (i : ℕ)
      → drop i l ≡ x ∷ r
      → (get_elem? l i ≡ some x) × (drop (suc i) l ≡ r)
  drop_cons [] r x zero e = cc
  drop_cons [] r x (suc i) e = cc
  drop_cons (y ∷ l) r x zero e = (cc, cc)
  drop_cons (y ∷ l) r x (suc i) e = drop_cons l r x i e

  pub drop_nil : (l : List T) (i : ℕ) → drop i l ≡ [] → get_elem? l i ≡ none
  drop_nil [] i e = refl
  drop_nil (y ∷ l) zero e = cc
  drop_nil (y ∷ l) (suc i) e = drop_nil l i e

  slice_iterator_from : (l r : List T) (i : ℕ) → drop i l ≡ r → Yields (slice_iterator l) i r
  unfolding slice_iterator
  slice_iterator_from l [] i e = done {s' = i} (rw (drop_nil l i e, slice_iterator))
  slice_iterator_from l (x ∷ r) i e =
      let (at, rest) = drop_cons l r x i e in
      more {s' = suc i} (rw (at, slice_iterator)) (slice_iterator_from l r (suc i) rest)

  -- SliceIterator yields the slice.
  pub slice_iterator-Yields : (l : List T) → Yields (slice_iterator l) 0 l
  slice_iterator-Yields l = slice_iterator_from l l 0 refl

module _ {ℓ κ} {S : Type ℓ} {T : Type κ} (next : Next S T) where
  -- Two states whose next call is the same yield the same.
  Yields-same : {s t : S} {xs : List T} → next s ≡ next t → Yields next t xs → Yields next s xs
  Yields-same p (done {s'} e) = done {s' = s'} (p ∙ e)
  Yields-same p (more {s'} e r) = more {s' = s'} (p ∙ e) r

module _ {ℓ κ μ} {S : Type ℓ} {T : Type κ} {U : Type μ} (next : Next S T) where
  -- MapIterator yields the images.
  pub map_iterator-Yields :
      (fn : T → U) {s : S} {xs : List T}
      → Yields next s xs
      → Yields (map_iterator next fn) s (map fn xs)
  unfolding map_iterator
  map_iterator-Yields fn (done {s'} e) = done {s' = s'} (rw e)
  map_iterator-Yields fn (more {s'} e r) = more {s' = s'} (rw e) (map_iterator-Yields fn r)

  flat_map_iterator_buffered :
      (fuel : ℕ) (fn : T → List U) (buf ys : List U) (s : S)
      → Yields (flat_map_iterator next fuel fn) ([], s) ys
      → Yields (flat_map_iterator next fuel fn) (buf, s) (buf ++ ys)
  unfolding flat_map_iterator
  flat_map_iterator_buffered fuel fn [] ys s y = y
  flat_map_iterator_buffered fuel fn (u ∷ buf) ys s y =
      more refl (flat_map_iterator_buffered fuel fn buf ys s y)

module _ {ℓ κ μ} {S : Type ℓ} {T : Type κ} {U : Type μ} (next : Next S T) (fn : T → List U) where
  flat_map_iterator_fuel :
      (f g : ℕ) {s : S} {xs : List T}
      → Yields next s xs
      → length xs < f
      → length xs < g
      → (buf : List U) → flat_map_iterator next f fn (buf, s) ≡ flat_map_iterator next g fn (buf, s)
  unfolding flat_map_iterator
  flat_map_iterator_fuel zero g y h k buf = elim h [ ]
  flat_map_iterator_fuel (suc f) zero y h k buf = elim k [ ]
  flat_map_iterator_fuel (suc f) (suc g) y h k (u ∷ buf) = refl
  flat_map_iterator_fuel (suc f) (suc g) (done {s'} e) h k [] = ground arith
  flat_map_iterator_fuel (suc f) (suc g) (more {s'} {x} e r) h k [] =
      ground (arith, flat_map_iterator_fuel f g r (omega arith) (omega arith) (fn x))

  -- If an iterator yields a list, FlatMapIterator yields the slices that the function gives of its
  -- records, one after the other, with more fuel than there are records.
  pub flat_map_iterator-Yields :
      (fuel : ℕ) {s : S} {xs : List T}
      → Yields next s xs
      → length xs < fuel
      → Yields (flat_map_iterator next fuel fn) ([], s) (flat_map fn xs)
  unfolding flat_map_iterator flat_map
  flat_map_iterator-Yields zero y h = elim h [ ]
  flat_map_iterator-Yields (suc f) (done {s'} e) h = done {s' = ([], s')} (ground arith)
  flat_map_iterator-Yields (suc f) (more {s'} {x} {xs} e r) h =
      Yields-same (flat_map_iterator next (suc f) fn) {t = (fn x, s')}
        (ground (arith, flat_map_iterator_fuel f (suc f) r (omega arith) (omega arith) (fn x)))
        (flat_map_iterator_buffered next (suc f) fn (fn x) _ s'
          (flat_map_iterator-Yields (suc f) r (omega arith)))

-- The iterators yield the lists, one each.
pub data YieldsAll {ℓ κ} {S : Type ℓ} {T : Type κ} (next : Next S T)
    : List S → List (List T) → Type (ℓ ⊔ κ) where
  none_left : YieldsAll next [] []
  one_more :
      {s : S} {iters : List S} {xs : List T} {xss : List (List T)}
      → Yields next s xs
      → YieldsAll next iters xss
      → YieldsAll next (s ∷ iters) (xs ∷ xss)

module _ {ℓ κ} {S : Type ℓ} {T : Type κ} (next : Next S T) where
  filter_iterator_fuel :
      (fn : T → Bool) (f g : ℕ) {s : S} {xs : List T}
      → Yields next s xs
      → length xs < f
      → length xs < g
      → filter_iterator next f fn s ≡ filter_iterator next g fn s
  unfolding filter_iterator
  filter_iterator_fuel fn zero g y h k = elim h [ ]
  filter_iterator_fuel fn (suc f) zero y h k = elim k [ ]
  filter_iterator_fuel fn (suc f) (suc g) (done {s'} e) h k = ground arith
  filter_iterator_fuel fn (suc f) (suc g) (more {s'} {x} e r) h k =
      ground (arith, filter_iterator_fuel fn f g r (omega arith) (omega arith))

  -- If an iterator yields a list, FilterIterator yields its records that pass, in their order, with
  -- more fuel than there are records.
  pub filter_iterator-Yields :
      (fn : T → Bool) (fuel : ℕ) {s : S} {xs : List T}
      → Yields next s xs
      → length xs < fuel
      → Yields (filter_iterator next fuel fn) s (select fn xs)
  unfolding filter_iterator
  filter_iterator-Yields fn zero y h = elim h [ ]
  filter_iterator-Yields fn (suc f) (done {s'} e) h = done {s' = s'} (ground arith)
  filter_iterator-Yields fn (suc f) (more {s'} {x} e r) h = elim (Bool-cases (fn x)) [
    | inl keep ↦
        rw keep (more {s' = s'} (ground arith) (filter_iterator-Yields fn (suc f) r (omega arith)))
    | inr drop_it ↦ rw drop_it (
        Yields-same (filter_iterator next (suc f) fn)
          (ground (arith, filter_iterator_fuel fn f (suc f) r (omega arith) (omega arith)))
          (filter_iterator-Yields fn (suc f) r (omega arith)))
  ]

  chain_prepend :
      (iters : List S) {s : S} {xs ys : List T}
      → Yields next s xs
      → Yields (chain_iterators next) iters ys
      → Yields (chain_iterators next) (s ∷ iters) (xs ++ ys)
  unfolding chain_iterators
  chain_prepend iters (done {s'} e) y = Yields-same _ (ground arith) y
  chain_prepend iters (more {s'} e r) y =
      more {s' = s' ∷ iters} (ground arith) (chain_prepend iters r y)

  -- If each of its iterators yields a list, ChainIterators yields these lists, one iterator after
  -- the other.
  pub chain_iterators-Yields :
      {iters : List S} {xss : List (List T)}
      → YieldsAll next iters xss
      → Yields (chain_iterators next) iters (flatten xss)
  unfolding chain_iterators flatten
  chain_iterators-Yields none_left = done {s' = []} refl
  chain_iterators-Yields (one_more {iters} y rest) =
      chain_prepend iters y (chain_iterators-Yields rest)

-- expandIterator
module _ {ℓ κ μ ν} {S : Type ℓ} {T : Type κ} {R : Type μ} {U : Type ν} (input : Next S T)
    (sub : Next R U) (fn : T → R) (sublist : T → List U)
    (sub-Yields : (x : T) → Yields sub (fn x) (sublist x)) where
  expand_iterator_fuel :
      (f g : ℕ) {s : S} {xs : List T}
      → Yields input s xs
      → length xs < f
      → length xs < g
      → (current : Option R)
      → expand_iterator input sub f fn (current, s) ≡ expand_iterator input sub g fn (current, s)
  unfolding expand_iterator
  expand_iterator_fuel zero g y h k current = elim h [ ]
  expand_iterator_fuel (suc f) zero y h k current = elim k [ ]
  expand_iterator_fuel (suc f) (suc g) (done {s'} e) h k none = ground arith
  expand_iterator_fuel (suc f) (suc g) (done {s'} e) h k (some c) = ground arith
  expand_iterator_fuel (suc f) (suc g) (more {s'} {x} e r) h k none =
      ground (arith, expand_iterator_fuel f g r (omega arith) (omega arith) (some (fn x)))
  expand_iterator_fuel (suc f) (suc g) (more {s'} {x} e r) h k (some c) =
      ground (arith, expand_iterator_fuel f g r (omega arith) (omega arith) (some (fn x)))

  -- what is left of the current subiterator comes first
  expand_iterator_current :
      (f : ℕ) {s : S} {xs : List T}
      → Yields input s xs
      → {c : R} {us : List U} → Yields sub c us
      → length xs < suc f
      → Yields (expand_iterator input sub (suc f) fn) (some c, s) (us ++ flat_map sublist xs)
  unfolding expand_iterator flat_map
  expand_iterator_current f (done {s' = t} e) (done {s' = d} p) h =
      done {s' = (some d, t)} (ground arith)
  expand_iterator_current f (more {s' = t} {x} e r) (done {s' = d} p) h =
      Yields-same (expand_iterator input sub (suc f) fn) {t = (some (fn x), t)}
        (ground (arith, expand_iterator_fuel f (suc f) r (omega arith) (omega arith) (some (fn x))))
        (expand_iterator_current f r {c = fn x} {us = sublist x} (sub-Yields x) (omega arith))
  expand_iterator_current f {s} r (more {s' = d} p y) h =
      more {s' = (some d, s)} (ground arith) (expand_iterator_current f r y h)

  -- If the subiterator of each record yields a list, expandIterator yields the lists of the input's
  -- records, one after the other, with more fuel than the input has records.
  pub expand_iterator-Yields :
      (f : ℕ) {s : S} {xs : List T}
      → Yields input s xs
      → length xs < suc f
      → Yields (expand_iterator input sub (suc f) fn) (none, s) (flat_map sublist xs)
  unfolding expand_iterator flat_map
  expand_iterator-Yields f (done {s' = t} e) h = done {s' = (none, t)} (ground arith)
  expand_iterator-Yields f (more {s' = t} {x} e r) h =
      Yields-same (expand_iterator input sub (suc f) fn) {t = (some (fn x), t)}
        (ground (arith, expand_iterator_fuel f (suc f) r (omega arith) (omega arith) (some (fn x))))
        (expand_iterator_current f r {c = fn x} {us = sublist x} (sub-Yields x) (omega arith))
