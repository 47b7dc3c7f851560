-- ===== src/RangeSort/Sampling.antt =====
-- range_sort.go: the number and the origin of the samples and the bounds.
use native.Mathlib.Nat.{div-lt_iff_lt-mul, le-div_iff_mul-le, div-mul-le_self, le_trans}
use go_spark.Prelude.{
  All-get_elem?, ℕ, zero, suc, ◌+◌, ◌-◌, ◌*◌, ◌/◌, ◌<◌, ◌≤◌, ◌≡◌, refl, ap, subst, Bool, true,
  false, inl, inr, Option, none, some, List, [], ◌∷◌, ◌++◌, arith, ltb, leb, length, length-append,
  length-set, get_elem?, get_elem?-some, set, All, All-append, All-set, if◌then◌else◌, Bool-cases,
}
use go_spark.Order.{WeakOrder, IsSorted, sort_stable}
use go_spark.Order.Stable.{sort_stable-IsSorted, length-sort_stable}
use go_spark.RangeSort.{
  Reservoir, keep_sample, sample_key, sample_keys, sample_sort_partition, append_sort_samples,
  bounds_from, select_range_bounds, collect_samples,
}

-- At most `n` items, all of which satisfy P.
abbrev pub Few {ℓ κ} : {K : Type ℓ} → (K → Type κ) → ℕ → List K → Type κ
Few P n l = (length l ≤ n) × All P l

module _ {ℓ κ} {K : Type ℓ} (P : K → Type κ) where
  put_back :
      (b : Bool) (n slot : ℕ) (l : List K) (key : K)
      → Few P n l
      → P key
      → Few P n (if b then set l slot key else l)
  put_back true n slot l key (few, all) p =
      (omega (arith, length-set l slot key), All-set P l slot key all p)
  put_back false n slot l key f p = f

  put_in :
      (n slot : ℕ) (b : Bool) (l : List K) (key : K)
      → Few P n l
      → P key
      → Few P n (if ltb (length l) n then l ++ key ∷ [] else if b then set l slot key else l)
  put_in n slot b l key (few, all) p = elim (Bool-cases (ltb (length l) n)) [
    | inl room ↦
        let lt : length l < n = ground arith in
        rw room (omega (arith, length-append l (key ∷ [])), All-append P l (key ∷ []) all (p, tt))
    | inr full ↦ rw full (put_back b n slot l key (few, all) p)
  ]

  module _ (size : K → ℕ) where
    keep_sample-Few :
        (key : K) (r : Reservoir K)
        → Few P 64 r.samples
        → P key
        → Few P 64 (keep_sample size key r).samples
    unfolding keep_sample
    keep_sample-Few key r f p = elim (Bool-cases (ltb (length r.samples) 64)) [
      | inl room ↦
          let lt : length r.samples < 64 = ground arith in
          rw (room, keep_sample)
            (
              omega (arith, length-append r.samples (key ∷ [])),
              All-append P r.samples (key ∷ []) f.1 (p, tt),
            )
      | inr full ↦ rw (full, keep_sample) (put_back _ 64 _ r.samples key f p)
    ]

    sample_key-Few :
        (key : K) (r : Reservoir K)
        → Few P 64 r.samples
        → P key
        → Few P 64 (sample_key size key r).samples
    unfolding sample_key
    sample_key-Few key r f p = elim (Bool-cases (ltb 4096 (size key))) [
      | inl large ↦ rw (large, sample_key) f
      | inr small ↦ rw (small, sample_key) (keep_sample-Few key r f p)
    ]

    sample_keys-Few :
        (keys : List K) (r : Reservoir K)
        → Few P 64 r.samples
        → All P keys
        → Few P 64 (sample_keys size keys r).samples
    unfolding sample_keys
    sample_keys-Few [] r f a = f
    sample_keys-Few (key ∷ keys) r f a =
        sample_keys-Few keys (sample_key size key r) (sample_key-Few key r f a.0) a.1

    -- The reservoir of a map partition has at most 64 samples, and what holds of all keys holds of
    -- them.
    pub sample_sort_partition-Few :
        (index : ℕ) (keys : List K) → All P keys → Few P 64 (sample_sort_partition size index keys)
    unfolding sample_sort_partition
    sample_sort_partition-Few index keys a = sample_keys-Few keys _ (omega arith, tt) a

  append_sort_samples-Few :
      (incoming samples : List K) (seen : ℕ)
      → Few P 4096 samples
      → All P incoming
      → Few P 4096 (append_sort_samples samples incoming seen).0
  unfolding append_sort_samples
  append_sort_samples-Few [] samples seen f a = f
  append_sort_samples-Few (key ∷ incoming) samples seen f a =
      append_sort_samples-Few incoming _ _ (put_in 4096 _ _ samples key f a.0) a.1

  collect_samples_from :
      (size : K → ℕ) (i : ℕ) (parts : List (List K)) (samples : List K) (seen : ℕ)
      → Few P 4096 samples
      → All (All P) parts
      → Few P 4096 (collect_samples size i parts samples seen)
  unfolding collect_samples
  collect_samples_from size i [] samples seen f a = f
  collect_samples_from size i (keys ∷ parts) samples seen f a =
      collect_samples_from size (i + 1) parts _ _
        (append_sort_samples-Few _ samples seen f (sample_sort_partition-Few size i keys a.0).1) a.1

  -- The driver keeps at most 4096 samples of all map partitions, and what holds of all keys holds of
  -- them.
  pub collect_samples-Few :
      (size : K → ℕ) (parts : List (List K))
      → All (All P) parts
      → Few P 4096 (collect_samples size 0 parts [] 0)
  collect_samples-Few size parts a = collect_samples_from size 0 parts [] 0 (omega arith, tt) a

module _ {ℓ} {K : Type ℓ} (less : K → K → Bool) (o : WeakOrder less) where
  get_elem?-IsSorted :
      (l : List K) (i k : ℕ) (x y : K)
      → IsSorted less l
      → i ≤ k
      → get_elem? l i ≡ some x
      → get_elem? l k ≡ some y
      → less y x ≡ false
  get_elem?-IsSorted [] i k x y s le ex ey = cc
  get_elem?-IsSorted (z ∷ l) zero zero x y s le ex ey = ground (arith, o.irrefl x)
  get_elem?-IsSorted (z ∷ l) zero (suc k) x y s le ex ey =
      let e : z ≡ x = cc in
      subst (λ v. less y v ≡ false) e (All-get_elem? (λ w. less w z ≡ false) l k y s.0 ey)
  get_elem?-IsSorted (z ∷ l) (suc i) zero x y s le ex ey = absurd (omega arith)
  get_elem?-IsSorted (z ∷ l) (suc i) (suc k) x y s le ex ey =
      get_elem?-IsSorted l i k x y s.1 (omega arith) ex ey

  -- The chosen bounds: `c` of them, ascending, none below the sample at the index `low`.
  record Chosen (sorted : List K) (low c : ℕ) (bounds : List K) : Type ℓ where
    count : length bounds ≡ c
    ascending : IsSorted less bounds
    above :
        (i : ℕ) (x : K) → i ≤ low → get_elem? sorted i ≡ some x → All (λ y. less y x ≡ false) bounds

  index_lt : (p reducers n : ℕ) → 0 < n → p < reducers → p * n / reducers < n
  index_lt p reducers n pos lt = (div-lt_iff_lt-mul (omega arith)).1 (grind arith)

  index_mono : (p reducers n : ℕ) → 0 < reducers → p * n / reducers ≤ (p + 1) * n / reducers
  index_mono p reducers n pos =
      (le-div_iff_mul-le pos).1 (omega (arith, div-mul-le_self (p * n) reducers))

  bounds_from-Chosen :
      (c p reducers : ℕ) (sorted : List K)
      → IsSorted less sorted
      → 0 < length sorted
      → p + c ≤ reducers
      → 0 < reducers
      → (bounds : List K) × (bounds_from c p reducers sorted ≡ some bounds)
        × Chosen sorted (p * length sorted / reducers) c bounds
  unfolding bounds_from
  bounds_from-Chosen zero p reducers sorted s pos le r =
      ([], refl, record { count = refl; ascending = tt; above = λ i x _ _. tt })
  bounds_from-Chosen (suc c) p reducers sorted s pos le r =
      let (key, at) =
        get_elem?-some sorted (p * length sorted / reducers)
          (index_lt p reducers (length sorted) pos (omega arith)) in
      let (bounds, e, ch) = bounds_from-Chosen c (p + 1) reducers sorted s pos (omega arith) r in
      let next : p * length sorted / reducers ≤ (p + 1) * length sorted / reducers =
        index_mono p reducers (length sorted) r in
      (
        key ∷ bounds,
        rw (at, bounds_from, e),
        record {
          count = ap suc ch.count;
          ascending = (ch.above _ key next at, ch.ascending);
          above = λ i x low ex. (
            get_elem?-IsSorted sorted i _ x key s low ex at,
            ch.above i x (le_trans low next) ex,
          );
        },
      )

  -- Bounds that a range partitioner of `reducers` partitions can use: none, or one between any two
  -- partitions, in ascending order.
  abbrev pub AreBounds : ℕ → Option (List K) → Type 0
  AreBounds reducers none = Unit
  AreBounds reducers (some bounds) = (length bounds + 1 ≡ reducers) × IsSorted less bounds

  -- By a weak order, selectRangeBounds never indexes out of range, and its bounds are nil, or they
  -- ascend and are one fewer than the reducers.
  pub select_range_bounds_lem :
      (samples : List K) (reducers : ℕ)
      → (bounds : Option (List K)) × (select_range_bounds less samples reducers ≡ some bounds)
        × AreBounds reducers bounds
  unfolding select_range_bounds
  select_range_bounds_lem [] reducers = (none, refl, tt)
  select_range_bounds_lem (key ∷ samples) reducers = elim (Bool-cases (leb reducers 1)) [
    | inl few ↦ (none, rw few, tt)
    | inr many ↦
        let more : 1 < reducers = ground arith in
        let (bounds, e, ch) =
          bounds_from-Chosen (reducers - 1) 1 reducers (sort_stable less (key ∷ samples))
            (sort_stable-IsSorted less o (key ∷ samples))
            (omega (arith, length-sort_stable less (key ∷ samples))) (omega arith) (omega arith) in
        (some bounds, rw (many, e), (omega (arith, ch.count), ch.ascending))
  ]
