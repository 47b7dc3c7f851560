-- ===== src/Tests/Storing.antt =====
-- Budgets, accumulators, a local shuffle and a combination of map outputs on small inputs.
use go_spark.Prelude.{ℕ, ◌+◌, ◌%◌, ◌≡◌, ◌↔◌, refl, true, false, none, List, [], ◌∷◌, arith, map}
use go_spark.Prelude.Maps.{nat_eq, list_eq}
use go_spark.Prelude.Results.{ok}
use go_spark.DiskBudget.{
  FilePath, bytes, new_disk_budget, reserve, Call, reserve_call, remove_file_call, remove_dir_call,
  rename_dir_call, calls,
}
use go_spark.DiskBudget.Bounded.{IsValid, IsTooMuch, calls-IsValid, reserve-none_iff}
use go_spark.Accumulators.{
  Name, int64, AccumulatorValue, AccumulatorSet, Addition, to_int64, task_updates,
  bind_accumulators, merge_results, merge_accumulators,
}
use go_spark.Accumulators.Totals.{sum_of_all, Holds, merge_accumulators-Holds}
use go_spark.Accumulators.Bound.{merge_accumulators-ok}
use go_spark.LocalShuffle.{run_maps, read_reduce_output}
use go_spark.LocalShuffle.Roundtrip.{of_reducer, read_reduce_output-run_maps}
use go_spark.Combine.{ShuffleDep, combine_map_output}
use go_spark.Combine.Keys.{IsCombined, combine_map_output-IsCombined}

-- The budget of a worker that finds one file of 5 bytes.
abbrev found : List (FilePath × ℕ)
found = (1 ∷ 2 ∷ [], 5) ∷ []

abbrev some_calls : List Call
some_calls =
    reserve_call (1 ∷ 3 ∷ []) (bytes 4)
    ∷ reserve_call (1 ∷ 4 ∷ []) (bytes 4)
    ∷ rename_dir_call false (1 ∷ []) (2 ∷ [])
    ∷ remove_file_call true (1 ∷ 2 ∷ [])
    ∷ remove_dir_call true (2 ∷ [])
    ∷ []

after_calls : (calls some_calls (new_disk_budget 10 found)).used ≡ 4
unfolding calls
after_calls = refl

calls-IsValid_example : IsValid (calls some_calls (new_disk_budget 10 found))
calls-IsValid_example =
    calls-IsValid some_calls 10 found (refl, tt) (omega arith) (λ limited. omega arith)
      (tt, (tt, (λ renamed. cc, (tt, (tt, tt)))))

reserve-none_iff_example :
    (reserve (1 ∷ 3 ∷ []) (bytes 6) (new_disk_budget 10 found) ≡ none)
    ↔ IsTooMuch (bytes 6) (new_disk_budget 10 found)
reserve-none_iff_example =
    reserve-none_iff (1 ∷ 3 ∷ []) (bytes 6) (new_disk_budget 10 found) (record {
      entries = (refl, tt);
      counted = omega arith;
      fits = omega arith;
      within = λ limited. omega arith;
    })

-- One accumulator, whose total is 3; floats are numbers here.
abbrev counter : Name
counter = 7 ∷ []

abbrev three : AccumulatorValue ℕ
three = record { kind = int64; int64_value = 3; float64_value = 0 }

abbrev counters : AccumulatorSet ℕ
counters = record { values = (counter, three) ∷ []; task = false; declared = false }

abbrev two_tasks : List (List (Addition ℕ))
two_tasks = (to_int64 counter 4 ∷ []) ∷ (to_int64 counter 5 ∷ to_int64 counter 6 ∷ []) ∷ []

merge_accumulators-ok_example :
    merge_accumulators 0 ◌+◌ (map (task_updates 0 ◌+◌ ((counter, int64) ∷ [])) two_tasks) counters
    ≡ ok (merge_results 0 ◌+◌ (map (task_updates 0 ◌+◌ ((counter, int64) ∷ [])) two_tasks) counters)
unfolding bind_accumulators
merge_accumulators-ok_example =
    merge_accumulators-ok 0 ◌+◌ counters ((counter, int64) ∷ []) two_tasks (refl, tt) refl

merge_accumulators-Holds_example :
    Holds 0 ◌+◌ counter three
      (sum_of_all counter (((counter, record three { int64_value = 4 }) ∷ []) ∷ []))
      (record counters { values = (counter, record three { int64_value = 7 }) ∷ [] })
unfolding merge_accumulators
merge_accumulators-Holds_example =
    merge_accumulators-Holds 0 ◌+◌ (((counter, record three { int64_value = 4 }) ∷ []) ∷ [])
      counters (record counters { values = (counter, record three { int64_value = 7 }) ∷ [] })
      counter three refl refl

-- Two map tasks and two reducers, by parity.
read_reduce_output-run_maps_example :
    read_reduce_output 3 1 2 (run_maps (λ n. n % 2) 2 3 0 ((1 ∷ 2 ∷ 5 ∷ []) ∷ (4 ∷ []) ∷ []) [])
    ≡ map (of_reducer (λ n. n % 2) 1) ((1 ∷ 2 ∷ 5 ∷ []) ∷ (4 ∷ []) ∷ [])
read_reduce_output-run_maps_example =
    read_reduce_output-run_maps (λ n. n % 2) 2 3 1 ((1 ∷ 2 ∷ 5 ∷ []) ∷ (4 ∷ []) ∷ []) []
      (omega arith)

-- Pairs of a key and a number, which are added.
abbrev sums : ShuffleDep ℕ (ℕ × ℕ) ℕ ℕ
sums = record {
  map_side_combine = true;
  has_aggregator = true;
  extract_key = λ i. i.0;
  create_combiner = λ v. v;
  merge_value = ◌+◌;
  pair_value = λ i. i.1;
  replace_pair_value = λ i c. (i.0, c);
}

two_sums : combine_map_output sums ((1, 2) ∷ (4, 3) ∷ (1, 5) ∷ []) ≡ (1, 7) ∷ (4, 3) ∷ []
unfolding combine_map_output
two_sums = refl

combine_map_output-IsCombined_example :
    IsCombined sums
      ((1, 2) ∷ (4, 3) ∷ (1, 5) ∷ [])
      (combine_map_output sums ((1, 2) ∷ (4, 3) ∷ (1, 5) ∷ []))
combine_map_output-IsCombined_example =
    combine_map_output-IsCombined sums ((1, 2) ∷ (4, 3) ∷ (1, 5) ∷ []) refl refl
