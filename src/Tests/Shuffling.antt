-- ===== src/Tests/Shuffling.antt =====
-- A shuffle of three numbers by their parity.
use go_spark.Prelude.{
  ℕ, ◌≡◌, ◌%◌, refl, none, some, List, [], ◌∷◌, arith, length, get_or, flatten, inr,
}
use go_spark.Prelude.Results.{ok}
use go_spark.Shuffle.{MapTask, MapOutput, write_stream_map, read_reduce, write, write_all, start}
use go_spark.Shuffle.Buckets.{
  Writable, WithinLimit, bucket, no_maps, one_map, write_stream_map_lem, read_reduce_lem,
  write_all-WithinLimit,
}

abbrev parity : MapTask ℕ
parity = record {
  num_partitions = 2;
  partition = λ v. v % 2;
  size = λ v. 1;
  record_bytes = 8;
  memory_bytes = 64;
  max_bytes = 100;
}

abbrev records : List ℕ
records = 3 ∷ 4 ∷ 5 ∷ []

records-Writable : Writable parity records
records-Writable =
    ((omega arith, omega arith), ((omega arith, omega arith), ((omega arith, omega arith), tt)))

abbrev written :
    (buckets : List (List ℕ)) × (write_stream_map parity none records ≡ ok buckets)
    × (length buckets ≡ 2)
    × ((rid : ℕ) → get_or buckets rid [] ≡ bucket parity rid records)
written = write_stream_map_lem parity records (omega arith) records-Writable (inr (omega arith))

read_reduce_lem_example : read_reduce (written.0 ∷ written.0 ∷ []) 1 ≡ some (3 ∷ 5 ∷ 3 ∷ 5 ∷ [])
unfolding flatten
read_reduce_lem_example =
    read_reduce_lem parity 1
      (one_map {input = records} written.2 written.3
        (one_map {input = records} written.2 written.3 no_maps))
      (omega arith)

abbrev all_written : MapOutput ℕ
all_written = record { buckets = (4 ∷ []) ∷ (3 ∷ 5 ∷ []) ∷ []; used_bytes = 43 }

write_all-WithinLimit_example : WithinLimit parity 43
unfolding write_all write
write_all-WithinLimit_example =
    write_all-WithinLimit parity records (start parity) all_written (inr (omega arith)) refl
