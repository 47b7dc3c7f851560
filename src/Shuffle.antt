-- ===== src/Shuffle.antt =====
-- file_shuffle.go (writeStreamMap, fileShuffleManager.stream, fileChain) and the read side that
-- shuffle.go shares with it: a map task sorts its records into buckets, and a reduce task reads its
-- bucket of every map task, in the order of the maps. A bucket file is the list of its records; the
-- handles, of which 16 stay open, and the temporary directory are not modelled.
pub mod Buckets
use go_spark.Prelude.{
  ℕ, zero, suc, ◌+◌, ◌-◌, ◌*◌, Bool, true, false, Option, none, some, List, [], ◌∷◌, ◌++◌, ltb, leb,
  ◌==◌, ◌&&◌, if◌then◌else◌, length, get_or, set, replicate,
}
use go_spark.Prelude.Results.{Result, ok, err, ◌>>=◌}

pub data MapError : Type 0 where
  no_reducers invalid_reduce_id record_limit map_limit : MapError

-- What a map task is given: `partition` is `GetPartition(ExtractKey(v))`, and 0 for a nil key; `size`
-- is the length of an encoded record; a `max_bytes` of 0 is no limit.
pub record MapTask {ℓ} (V : Type ℓ) : Type ℓ where
  pub num_partitions : ℕ
  pub partition : V → ℕ
  pub size : V → ℕ
  pub record_bytes : ℕ
  pub memory_bytes : ℕ
  pub max_bytes : ℕ

pub record MapOutput {ℓ} (V : Type ℓ) : Type ℓ where
  pub buckets : List (List V)
  pub used_bytes : ℕ

module _ {ℓ} {V : Type ℓ} (t : MapTask V) where
  -- writers[rid].append
  abbrev pub append_to : ℕ → V → List (List V) → List (List V)
  append_to rid v buckets = set buckets rid (get_or buckets rid [] ++ v ∷ [])

  -- The closure `write`.
  unfoldable pub write : V → MapOutput V → Result MapError (MapOutput V)
  write v out =
      if leb t.num_partitions (t.partition v)
      then err invalid_reduce_id
      else if ltb t.record_bytes (t.size v)
      then err record_limit
      else if ltb 0 t.max_bytes && ltb (t.max_bytes - out.used_bytes) (t.size v + 8)
      then err map_limit
      else ok (record {
        buckets = append_to (t.partition v) v out.buckets;
        used_bytes = out.used_bytes + (t.size v + 8);
      })

  unfoldable pub write_all : List V → MapOutput V → Result MapError (MapOutput V)
  write_all [] out = ok out
  write_all (v ∷ vs) out = write v out >>= λ out'. write_all vs out'

  -- The variables of the final loop of a map task that combines.
  pub record Batch : Type ℓ where
    pub batch : List V
    pub used : ℕ
    pub out : MapOutput V

  module _ (combine : List V → List V) where
    -- The closure `flush`; `combine` is combineMapOutput.
    unfoldable pub flush : Batch → Result MapError Batch
    unfolding write_all
    flush s =
        write_all (combine s.batch) s.out >>= λ out. ok (record { batch = []; used = 0; out = out })

    -- `if b { flush() }`
    abbrev pub flush_if : Bool → Batch → Result MapError Batch
    flush_if true s = flush s
    flush_if false s = ok s

    abbrev pub is_empty : List V → Bool
    is_empty [] = true
    is_empty (v ∷ vs) = false

    -- One record of the input, with map-side combining.
    unfoldable pub add : V → Batch → Result MapError Batch
    add v s =
        let cost = t.size v + 64 in
        if ltb t.record_bytes (t.size v)
        then err record_limit
        else (flush_if (if is_empty s.batch then false else ltb t.memory_bytes (s.used + cost)) s
            >>= λ s1.
                let s2 : Batch = record s1 { batch = s1.batch ++ v ∷ []; used = s1.used + cost } in
                flush_if (leb t.memory_bytes s2.used) s2)

    unfoldable pub add_all : List V → Batch → Result MapError Batch
    add_all [] s = ok s
    add_all (v ∷ vs) s = add v s >>= λ s'. add_all vs s'

  -- The empty buckets; each starts with a framing header.
  abbrev pub start : MapOutput V
  start = record { buckets = replicate t.num_partitions []; used_bytes = t.num_partitions * 8 }

  -- writeStreamMap; `combine` is none without map-side combining, and the records are written one by
  -- one.
  unfoldable pub write_stream_map :
      Option (List V → List V) → List V → Result MapError (List (List V))
  unfolding write write_all flush add add_all
  write_stream_map combine input =
      if t.num_partitions == 0
      then err no_reducers
      else if ltb 0 t.max_bytes && ltb t.max_bytes (t.num_partitions * 8)
      then err map_limit
      else elim combine [
        | none ↦ write_all input start >>= λ out. ok out.buckets
        | some c ↦ add_all c input (record { batch = []; used = 0; out = start }) >>= λ s.
            flush c s >>= λ s'. ok s'.out.buckets
      ]

-- The stream of a reduce task: the bucket of each map, one map after the other. `none` is the
-- error "missing shuffle".
unfoldable pub read_reduce {ℓ} : {V : Type ℓ} → List (List (List V)) → ℕ → Option (List V)
read_reduce [] rid = some []
read_reduce (buckets ∷ maps) rid = elim (leb (length buckets) rid) [
  | true ↦ none
  | false ↦ elim (read_reduce maps rid) [
    | none ↦ none
    | some rest ↦ some (get_or buckets rid [] ++ rest)
  ]
]
