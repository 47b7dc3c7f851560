-- ===== src/Tests/Sorting.antt =====
-- The sorts and the partitioners on small lists of numbers.
use go_spark.Prelude.{
  ℕ, ◌≡◌, ◌<◌, refl, Option, none, some, List, [], ◌∷◌, arith, ltb, length, get_or, inl, flatten,
}
use go_spark.Prelude.Results.{ok, ◌>>◌}
use go_spark.Order.{WeakOrder, sort_stable}
use go_spark.ExternalSort.{Budget, external_sort}
use go_spark.ExternalSort.Correct.{check_sizes, external_sort_lem}
use go_spark.Partitioner.{RangePartitioner, range_partition}
use go_spark.Partitioner.Bounds.{range_partition-lt}
use go_spark.Shuffle.{MapTask, write_stream_map}
use go_spark.Shuffle.Buckets.{Writable, bucket, no_maps, one_map, write_stream_map_lem}
use go_spark.RangeSort.{sort_ranges, select_range_bounds}
use go_spark.RangeSort.Sampling.{AreBounds, select_range_bounds_lem}
use go_spark.RangeSort.SortByKey.{by_key, sort_ranges-sort_stable}

less_order : WeakOrder ltb
less_order = record {
  irrefl = λ a. ground arith;
  trans = λ a b c h k. ground arith;
  negtrans = λ a b c h k. ground arith;
}

abbrev numbers : List ℕ
numbers = 3 ∷ 1 ∷ 2 ∷ []

abbrev budget : Budget
budget = record { record_bytes = 16; memory_bytes = 100 }

external_sort_lem_example :
    external_sort ltb (λ v. 8) budget numbers
    ≡ (check_sizes (λ v. 8) budget numbers >> ok (sort_stable ltb numbers, length numbers))
external_sort_lem_example = external_sort_lem ltb less_order (λ v. 8) budget numbers

abbrev lower_bounds : Option (List ℕ)
lower_bounds = some (2 ∷ [])

abbrev ranges_of_two : RangePartitioner ℕ
ranges_of_two = record { num_partitions = 2; range_bounds = lower_bounds }

abbrev sort_task : MapTask ℕ
sort_task = record {
  num_partitions = 2;
  partition = range_partition ltb ranges_of_two;
  size = λ v. 8;
  record_bytes = 16;
  memory_bytes = 100;
  max_bytes = 0;
}

writes : (v : ℕ) → sort_task.partition v < 2
writes v = range_partition-lt ltb ranges_of_two v (omega arith)

numbers_written : Writable sort_task numbers
numbers_written =
    ((writes 3, omega arith), ((writes 1, omega arith), ((writes 2, omega arith), tt)))

-- What a map task of the sort writes.
abbrev sort_output :
    (buckets : List (List ℕ)) × (write_stream_map sort_task none numbers ≡ ok buckets)
    × (length buckets ≡ 2)
    × ((rid : ℕ) → get_or buckets rid [] ≡ bucket sort_task rid numbers)
sort_output = write_stream_map_lem sort_task numbers (omega arith) numbers_written (inl refl)

sort_ranges-sort_stable_example :
    sort_ranges (by_key ltb less_order (λ v. v)) (λ v. 8) budget (sort_output.0 ∷ []) 2 0
    ≡ some (sort_stable (by_key ltb less_order (λ v. v)) (flatten (numbers ∷ [])))
unfolding flatten
sort_ranges-sort_stable_example =
    sort_ranges-sort_stable ltb less_order (λ v. v) sort_task budget lower_bounds (refl, (tt, tt))
      (λ v. refl) (omega arith) (one_map {input = numbers} sort_output.2 sort_output.3 no_maps)
      ((omega arith, omega arith), ((omega arith, omega arith), ((omega arith, omega arith), tt)))

select_range_bounds_lem_example :
    (bounds : Option (List ℕ)) × (select_range_bounds ltb numbers 2 ≡ some bounds)
    × AreBounds ltb less_order 2 bounds
select_range_bounds_lem_example = select_range_bounds_lem ltb less_order numbers 2
