-- ===== src/Partitioner/Search.antt =====
-- partitioner.go: sort.Search as RangePartitioner.GetPartition calls it, and the order of keys.
use go_spark.Prelude.{
  ℕ, zero, suc, ◌+◌, ◌/◌, ◌<◌, ◌≤◌, ◌≡◌, refl, subst, Bool, true, false, some, List, [], ◌∷◌, inl,
  inr, arith, length, get_or, ltb, Bool-cases, All, dec_le,
}
use go_spark.Order.{WeakOrder, IsSorted}
use go_spark.Partitioner.{search_loop, search_first, range_partition, RangePartitioner, below_bound}

-- Once the test holds it goes on holding.
abbrev pub Monotone : ℕ → (ℕ → Bool) → Type 0
Monotone n test = (i k : ℕ) → i ≤ k → k < n → test i ≡ true → test k ≡ true

-- `r` is the first index below `n` at which the test holds, or `n`.
pub record First (n : ℕ) (test : ℕ → Bool) (r : ℕ) : Type 0 where
  pub within : r ≤ n
  pub before : (k : ℕ) → k < r → test k ≡ false
  pub at : r < n → test r ≡ true

module _ (n : ℕ) (test : ℕ → Bool) (mono : Monotone n test) where
  fails_below : (h k : ℕ) → k ≤ h → h < n → test h ≡ false → test k ≡ false
  fails_below h k le lt e = elim (Bool-cases (test k)) [
    | inl holds ↦ ground (arith, mono k h le lt holds)
    | inr fails ↦ fails
  ]

  search_loop-First :
      (fuel i j : ℕ)
      → j ≤ i + fuel
      → i ≤ j
      → j ≤ n
      → ((k : ℕ) → k < i → test k ≡ false)
      → (j < n → test j ≡ true)
      → First n test (search_loop fuel test i j)
  unfolding search_loop
  search_loop-First zero i j f le top before at =
      let e : i ≡ j = omega arith in record { within = omega arith; before = before; at = rw e at }
  search_loop-First (suc f) i j fit le top before at = elim (Bool-cases (ltb i j)) [
    | inr done ↦
        let e : j ≡ i = ground arith in
        rw (done, search_loop)
          (record {
            within = omega arith;
            before = before;
            at = subst (λ m. m < n → test m ≡ true) e at;
          })
    | inl open_span ↦
        let lt : i < j = ground arith in
        rw (open_span, search_loop)
          (elim (Bool-cases (test ((i + j) / 2))) [
            | inl holds ↦ rw holds (
                search_loop-First f i ((i + j) / 2) (omega arith) (omega arith) (omega arith) before
                  (λ _. holds))
            | inr fails ↦ rw fails (
                search_loop-First f ((i + j) / 2 + 1) j (omega arith) (omega arith) top
                  (λ k lt'. fails_below ((i + j) / 2) k (omega arith) (omega arith) fails) at)
          ])
  ]

  -- The binary search finds the first index at which a monotone test holds.
  pub search_first-First : First n test (search_first n test)
  unfolding search_first
  search_first-First =
      search_loop-First n 0 n (omega arith) (omega arith) (omega arith) (λ k h. elim h [ ])
        (λ h. absurd (omega arith))

module _ {ℓ} {K : Type ℓ} (less : K → K → Bool) (o : WeakOrder less) where
  get_or-IsSorted :
      (bounds : List K) (d : K) (i k : ℕ)
      → IsSorted less bounds
      → i ≤ k
      → k < length bounds
      → less (get_or bounds k d) (get_or bounds i d) ≡ false
  get_or-IsSorted [] d i k s le lt = elim lt [ ]
  get_or-IsSorted (b ∷ bounds) d zero zero s le lt = o.irrefl b
  get_or-IsSorted (b ∷ bounds) d zero (suc k) s le lt = All-get_or bounds k s.0 (omega arith)
    where
      All-get_or :
          (l : List K) (k : ℕ)
          → All (λ y. less y b ≡ false) l
          → k < length l
          → less (get_or l k d) b ≡ false
      All-get_or [] k a h = elim h [ ]
      All-get_or (x ∷ l) zero a h = a.0
      All-get_or (x ∷ l) (suc k) a h = All-get_or l k a.1 (omega arith)
  get_or-IsSorted (b ∷ bounds) d (suc i) zero s le lt = absurd (omega arith)
  get_or-IsSorted (b ∷ bounds) d (suc i) (suc k) s le lt =
      get_or-IsSorted bounds d i k s.1 (omega arith) (omega arith)

  below_bound-Monotone :
      (key : K) (bounds : List K)
      → IsSorted less bounds
      → Monotone (length bounds) (below_bound less key bounds)
  below_bound-Monotone key bounds s i k le lt e =
      elim (Bool-cases (less key (get_or bounds k key))) [
        | inl holds ↦ holds
        | inr fails ↦ ground (
          arith,
          o.negtrans key (get_or bounds k key) (get_or bounds i key) fails
              (get_or-IsSorted bounds key i k s le lt),
        )
      ]

  First-of_key :
      (key : K) (bounds : List K)
      → IsSorted less bounds
      → First
          (length bounds)
          (below_bound less key bounds)
          (search_first (length bounds) (below_bound less key bounds))
  First-of_key key bounds s =
      search_first-First (length bounds) (below_bound less key bounds)
        (below_bound-Monotone key bounds s)

  get_or_default :
      (bounds : List K) (i : ℕ) (d e : K)
      → i < length bounds
      → get_or bounds i d ≡ get_or bounds i e
  get_or_default [] i d e h = elim h [ ]
  get_or_default (b ∷ bounds) zero d e h = refl
  get_or_default (b ∷ bounds) (suc i) d e h = get_or_default bounds i d e (omega arith)

  -- the search for the smaller key ends no later
  First-mono :
      (bounds : List K) (x y : K) (r t : ℕ)
      → less y x ≡ false
      → First (length bounds) (below_bound less x bounds) r
      → First (length bounds) (below_bound less y bounds) t
      → r ≤ t
  First-mono bounds x y r t le fx fy = elim (dec_le r t) [
    | yes h ↦ h
    | no h ↦
        let lt : t < r = omega arith in
        let inside : t < length bounds = omega (arith, fx.within) in
        let above : less y (get_or bounds t x) ≡ false =
          o.negtrans y x (get_or bounds t x) le (fx.before t lt) in
        ground (arith, fy.at inside, get_or_default bounds t x y inside)
  ]

  -- By a weak order, with ascending bounds, a larger key, or a tie, is in the same range partition
  -- or in a later one.
  pub range_partition_mono :
      (n : ℕ) (bounds : List K) (x y : K)
      → IsSorted less bounds
      → less y x ≡ false
      → let p : RangePartitioner K = record { num_partitions = n; range_bounds = some bounds } in
        range_partition less p x ≤ range_partition less p y
  unfolding range_partition
  range_partition_mono n bounds x y s le =
      ground
        (arith, First-mono bounds x y _ _ le (First-of_key x bounds s) (First-of_key y bounds s))
