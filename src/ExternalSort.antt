-- ===== src/ExternalSort.antt =====
-- external_sort.go: sorting by budget-sized runs that are compacted by binary merges.
-- A run file is the list of the records that it holds.
pub mod Runs
pub mod Correct
use go_spark.Prelude.{
  ℕ, suc, ◌+◌, Bool, true, false, Option, none, some, List, [], ◌∷◌, ◌++◌, ltb, if◌then◌else◌,
}
use go_spark.Prelude.Results.{Result, ok, err, ◌>>=◌}
use go_spark.Order.{sort_stable}

-- What `must` panics with.
pub data SortError : Type 0 where
  record_limit memory_budget : SortError

-- `ctx.recordBytes()` and `ctx.memoryBytes()`.
pub record Budget : Type 0 where
  pub record_bytes : ℕ
  pub memory_bytes : ℕ

-- The variables of `externalSort`. An empty string in `levels` is `none`.
pub record Sorter {ℓ} (A : Type ℓ) : Type ℓ where
  pub levels : List (Option (List A))
  pub chunk : List A
  pub bytes : ℕ
  pub count : ℕ

-- With no run at all the final file is written empty.
abbrev pub run_or_empty {ℓ} : {A : Type ℓ} → Option (List A) → List A
run_or_empty none = []
run_or_empty (some run) = run

module _ {ℓ} {A : Type ℓ} (less : A → A → Bool) where
  -- The closure `merge`: a tie is taken from the left.
  unfoldable pub merge : List A → List A → List A
  merge [] [] = []
  merge [] (b ∷ r) = b ∷ merge [] r
  merge (a ∷ l) [] = a ∷ merge l []
  merge (a ∷ l) (b ∷ r) = elim (less b a) [
    | true ↦ b ∷ merge (a ∷ l) r
    | false ↦ a ∷ merge l (b ∷ r)
  ]

  -- The closure `push`, from `level` on.
  unfoldable pub push : List A → List (Option (List A)) → List (Option (List A))
  unfolding merge
  push run [] = some run ∷ []
  push run (none ∷ levels) = some run ∷ levels
  push run (some old ∷ levels) = none ∷ push (merge old run) levels

  flush_chunk : List A → Sorter A → Sorter A
  unfolding push sort_stable
  flush_chunk [] s = s
  flush_chunk (v ∷ chunk) s = record s {
    levels = push (sort_stable less (v ∷ chunk)) s.levels;
    chunk = [];
    bytes = 0;
  }

  -- The closure `flush`.
  unfoldable pub flush : Sorter A → Sorter A
  unfolding flush_chunk
  flush s = flush_chunk s.chunk s

  -- One round of the final loop: `final` so far, and `levels[i]`.
  compact : Option (List A) → Option (List A) → Option (List A)
  unfolding merge
  compact final none = final
  compact none (some run) = some run
  compact (some final) (some run) = some (merge final run)

  -- The final loop, from the highest level down.
  unfoldable pub collapse : List (Option (List A)) → Option (List A)
  unfolding compact
  collapse [] = none
  collapse (run ∷ levels) = compact (collapse levels) run

  -- The last `flush`, the stream and `count`.
  abbrev pub finish : Sorter A → List A × ℕ
  finish s = let s' = flush s in (run_or_empty (collapse s'.levels), s'.count)

  module _ (size : A → ℕ) (b : Budget) where
    -- One record of the input; `size` is the length of its encoding.
    unfoldable pub accept : A → Sorter A → Result SortError (Sorter A)
    unfolding flush
    accept v s =
        let cost = size v + 64 in
        if ltb b.record_bytes (size v)
        then err record_limit
        else if ltb b.memory_bytes cost
        then err memory_budget
        else let s' : Sorter A = if ltb b.memory_bytes (s.bytes + cost) then flush s else s in
          ok (record s' {
            chunk = s'.chunk ++ v ∷ [];
            bytes = s'.bytes + cost;
            count = s'.count + 1;
          })

    unfoldable pub consume : List A → Sorter A → Result SortError (Sorter A)
    consume [] s = ok s
    consume (v ∷ input) s = accept v s >>= λ s'. consume input s'

    -- The sorted stream and the number of records.
    unfoldable pub external_sort : List A → Result SortError (List A × ℕ)
    unfolding consume accept flush collapse
    external_sort input =
        consume input (record { levels = []; chunk = []; bytes = 0; count = 0 }) >>= λ s.
        ok (finish s)
