-- ===== src/ExternalSort/Correct.antt =====
-- `externalSort` from outside: the sizes it checks, and what it keeps about the input read so far.
use go_spark.Prelude.{
  ℕ, ◌+◌, ◌≡◌, refl, sym, ap, ap₂, ◌∙◌, Bool, true, false, List, [], ◌∷◌, ◌++◌, arith, ltb,
  if◌then◌else◌, append_assoc, append-nil, length, length-append,
}
use go_spark.Prelude.Results.{Result, ok, err, ◌>>=◌, ◌>>◌}
use go_spark.Order.{WeakOrder, sort_stable}
use go_spark.ExternalSort.{
  SortError, record_limit, memory_budget, Budget, Sorter, flush_chunk, flush, accept, consume,
  finish, external_sort,
}
use go_spark.ExternalSort.Runs.{Holds, push-Holds, collapse-Holds}

module _ {ℓ} {A : Type ℓ} (size : A → ℕ) (b : Budget) where
  -- The refusal of the first record that no budget-sized run can take.
  abbrev pub check_sizes : List A → Result SortError (Unit {0})
  check_sizes [] = ok tt
  check_sizes (v ∷ input) =
      if ltb b.record_bytes (size v)
      then err record_limit
      else if ltb b.memory_bytes (size v + 64)
      then err memory_budget
      else check_sizes input

module _ {ℓ} {A : Type ℓ} (less : A → A → Bool) (o : WeakOrder less) where
  -- The catalogue and the chunk hold the records of `done`, in their order.
  pub record Keeps (s : Sorter A) (done : List A) : Type ℓ where
    pub prefix : List A
    pub split : done ≡ prefix ++ s.chunk
    pub runs : Holds less o s.levels prefix
    pub counted : s.count ≡ length done

  flush_chunk-Keeps :
      (chunk : List A) (s : Sorter A) (done : List A)
      → s.chunk ≡ chunk
      → Keeps s done
      → Keeps (flush_chunk less chunk s) done × ((flush_chunk less chunk s).chunk ≡ [])
  unfolding flush_chunk
  flush_chunk-Keeps [] s done e k = (k, e)
  flush_chunk-Keeps (v ∷ chunk) s done e k = (
    record {
      prefix = k.prefix ++ (v ∷ chunk);
      split = k.split ∙ rw (e, append-nil);
      runs = push-Holds less o s.levels _ k.prefix (v ∷ chunk) k.runs refl;
      counted = k.counted;
    },
    refl,
  )

  flush-Keeps :
      (s : Sorter A) (done : List A)
      → Keeps s done
      → Keeps (flush less s) done × ((flush less s).chunk ≡ [])
  unfolding flush
  flush-Keeps s done k = flush_chunk-Keeps s.chunk s done refl k

  abbrev appended : Sorter A → A → ℕ → Sorter A
  appended s v bytes = record s { chunk = s.chunk ++ v ∷ []; bytes = bytes; count = s.count + 1 }

  appended-Keeps :
      (s : Sorter A) (done : List A) (v : A) (bytes : ℕ)
      → Keeps s done
      → Keeps (appended s v bytes) (done ++ v ∷ [])
  appended-Keeps s done v bytes k = record {
    prefix = k.prefix;
    split = rw k.split (append_assoc k.prefix s.chunk (v ∷ []));
    runs = k.runs;
    counted = omega (arith, k.counted, length-append done (v ∷ []));
  }

  module _ (size : A → ℕ) (b : Budget) where
    -- Whether or not the chunk was flushed first.
    accepted-Keeps :
        (full : Bool) (s : Sorter A) (done : List A) (v : A) (cost : ℕ)
        → Keeps s done
        → let s' : Sorter A = if full then flush less s else s in
          Keeps (appended s' v (s'.bytes + cost)) (done ++ v ∷ [])
    accepted-Keeps true s done v cost k = appended-Keeps _ done v _ (flush-Keeps s done k).0
    accepted-Keeps false s done v cost k = appended-Keeps s done v _ k

    finish-Keeps :
        (s : Sorter A) (done : List A)
        → Keeps s done
        → finish less s ≡ (sort_stable less done, length done)
    finish-Keeps s done k =
        let (f, empty) = flush-Keeps s done k in
        let prefix : f.prefix ≡ done = sym (f.split ∙ rw empty (append-nil f.prefix)) in
        ap₂ (λ run n. (run, n))
          (collapse-Holds less o _ f.prefix f.runs ∙ ap (sort_stable less) prefix) f.counted

    consume-Keeps :
        (input : List A) (s : Sorter A) (done : List A)
        → Keeps s done
        → (consume less size b input s >>= λ s'. ok (finish less s')) ≡ (
            check_sizes size b input
            >> ok (sort_stable less (done ++ input), length (done ++ input)))
    unfolding consume accept
    consume-Keeps [] s done k = rw append-nil (ap ok (finish-Keeps s done k))
    consume-Keeps (v ∷ input) s done k = ground (
      arith,
      consume-Keeps input _ (done ++ v ∷ [])
          (accepted-Keeps (ltb b.memory_bytes (s.bytes + (size v + 64))) s done v (size v + 64) k),
      append_assoc done (v ∷ []) input,
    )

    -- By a weak order, the external sort returns the stable sort of its input and the input's length
    -- at every budget that each record fits, and fails with the error of the first record that does
    -- not fit.
    pub external_sort_lem :
        (input : List A)
        → external_sort less size b input
          ≡ (check_sizes size b input >> ok (sort_stable less input, length input))
    unfolding external_sort
    external_sort_lem input =
        consume-Keeps input _ [] (record { prefix = []; split = refl; runs = refl; counted = refl })
