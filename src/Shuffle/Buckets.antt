-- ===== src/Shuffle/Buckets.antt =====
-- file_shuffle.go: the buckets that a map task writes, and what a reduce task reads of them.
use go_spark.Prelude.{
  ℕ, zero, suc, ◌+◌, ◌*◌, ◌<◌, ◌≤◌, ◌≡◌, refl, sym, subst, ◌∙◌, ◌⊎◌, none, some, List, [], ◌∷◌,
  ◌++◌, arith, ◌==◌, if◌then◌else◌, length, get_or, set, replicate, select, select-append,
  length-set, length-replicate, flatten, append-nil, append_assoc,
}
use go_spark.Prelude.Results.{ok}
use go_spark.Shuffle.{
  MapTask, MapOutput, append_to, write, write_all, start, write_stream_map, read_reduce,
}

module _ {ℓ} {A : Type ℓ} where
  get_or-set :
      (l : List A) (i j : ℕ) (v d : A)
      → i < length l
      → get_or (set l i v) j d ≡ (if i == j then v else get_or l j d)
  get_or-set [] i j v d h = elim h [ ]
  get_or-set (x ∷ l) zero zero v d h = refl
  get_or-set (x ∷ l) zero (suc j) v d h = ground arith
  get_or-set (x ∷ l) (suc i) zero v d h = ground arith
  get_or-set (x ∷ l) (suc i) (suc j) v d h = ground (arith, get_or-set l i j v d (omega arith))

  get_or-replicate : (n j : ℕ) (d : A) → get_or (replicate n d) j d ≡ d
  get_or-replicate zero j d = refl
  get_or-replicate (suc n) zero d = refl
  get_or-replicate (suc n) (suc j) d = get_or-replicate n j d

module _ {ℓ} {V : Type ℓ} (t : MapTask V) where
  -- The bucket `rid` of what is written of `vs`.
  abbrev pub bucket : ℕ → List V → List V
  bucket rid = select (λ v. t.partition v == rid)

  -- The buckets hold the records of `done`, in their order.
  pub record Holds (out : MapOutput V) (done : List V) : Type ℓ where
    pub count : length out.buckets ≡ t.num_partitions
    pub content : (rid : ℕ) → get_or out.buckets rid [] ≡ bucket rid done

  start-Holds : Holds (start t) []
  start-Holds = record {
    count = length-replicate t.num_partitions [];
    content = λ rid. get_or-replicate t.num_partitions rid [];
  }

  append_to-Holds :
      (out : MapOutput V) (done : List V) (v : V) (bytes : ℕ)
      → t.partition v < t.num_partitions
      → Holds out done
      → Holds
          (record { buckets = append_to t (t.partition v) v out.buckets; used_bytes = bytes })
          (done ++ v ∷ [])
  append_to-Holds out done v bytes lt h = record {
    count = length-set out.buckets (t.partition v) _ ∙ h.count;
    content = λ rid. ground (
      arith,
      get_or-set out.buckets (t.partition v) rid (get_or out.buckets (t.partition v) [] ++ v ∷ [])
          [],
      h.content rid,
      h.content (t.partition v),
      h.count,
      select-append (λ x. t.partition x == rid) done (v ∷ []),
      append-nil (bucket rid done),
    );
  }

  -- The bytes that framing and records take.
  abbrev pub framed : List V → ℕ
  framed [] = 0
  framed (v ∷ vs) = (t.size v + 8) + framed vs

  -- Every record has a reducer and is within the record limit.
  abbrev pub Writable : List V → Type 0
  Writable [] = Unit
  Writable (v ∷ vs) =
      ((t.partition v < t.num_partitions) × (t.size v ≤ t.record_bytes)) × Writable vs

  -- No limit on the output of a map task, or one that `bytes` keeps.
  abbrev pub WithinLimit : ℕ → Type 0
  WithinLimit bytes = (t.max_bytes ≡ 0) ⊎ (bytes ≤ t.max_bytes)

  write_all-Holds :
      (vs done : List V) (out : MapOutput V)
      → Writable vs
      → WithinLimit (out.used_bytes + framed vs)
      → Holds out done
      → (out' : MapOutput V) × (write_all t vs out ≡ ok out')
        × Holds out' (done ++ vs)
        × (out'.used_bytes ≡ out.used_bytes + framed vs)
  unfolding write_all write
  write_all-Holds [] done out w fit h =
      (out, refl, subst (Holds out) (sym (append-nil done)) h, omega arith)
  write_all-Holds (v ∷ vs) done out w fit h =
      let next : MapOutput V = record {
        buckets = append_to t (t.partition v) v out.buckets;
        used_bytes = out.used_bytes + (t.size v + 8);
      } in
      let (out', e, held, used) =
        write_all-Holds vs (done ++ v ∷ []) next w.1 (omega arith)
          (append_to-Holds out done v (out.used_bytes + (t.size v + 8)) w.0.0 h) in
      (out', ground arith, subst (Holds out') (append_assoc done (v ∷ []) vs) held, omega arith)

  pub write_stream_map_lem :
      (input : List V)
      → 0 < t.num_partitions
      → Writable input
      → WithinLimit (t.num_partitions * 8 + framed input)
      → (buckets : List (List V)) × (write_stream_map t none input ≡ ok buckets)
        × (length buckets ≡ t.num_partitions)
        × ((rid : ℕ) → get_or buckets rid [] ≡ bucket rid input)
  unfolding write_stream_map
  write_stream_map_lem input pos w fit =
      let (out, e, h, used) = write_all-Holds input [] (start t) w fit start-Holds in
      (out.buckets, ground arith, h.count, h.content)

  -- If an output is within the limit of a map task and records are written to it without an error,
  -- it is within the limit again.
  pub write_all-WithinLimit :
      (vs : List V) (out out' : MapOutput V)
      → WithinLimit out.used_bytes
      → write_all t vs out ≡ ok out'
      → WithinLimit out'.used_bytes
  unfolding write_all write
  write_all-WithinLimit [] out out' fit e = ground arith
  write_all-WithinLimit (v ∷ vs) out out' fit e = ground (
    arith,
    write_all-WithinLimit vs
        (record {
          buckets = append_to t (t.partition v) v out.buckets;
          used_bytes = out.used_bytes + (t.size v + 8);
        })
        out',
  )

  -- The outputs of map tasks, bucket by bucket, are the records of the inputs.
  pub data Written : List (List (List V)) → List (List V) → Type ℓ where
    no_maps : Written [] []
    one_map :
        {buckets : List (List V)} {maps : List (List (List V))} {input : List V}
        {inputs : List (List V)}
        → length buckets ≡ t.num_partitions
        → ((rid : ℕ) → get_or buckets rid [] ≡ bucket rid input)
        → Written maps inputs
        → Written (buckets ∷ maps) (input ∷ inputs)

  -- From the outputs of map tasks, which hold each record in its bucket, a reduce task of theirs
  -- reads the records of its own, and no other, in the order of the maps and of each map's input.
  pub read_reduce_lem :
      {maps : List (List (List V))} {inputs : List (List V)} (rid : ℕ)
      → Written maps inputs
      → rid < t.num_partitions
      → read_reduce maps rid ≡ some (bucket rid (flatten inputs))
  unfolding read_reduce flatten
  read_reduce_lem rid no_maps lt = refl
  read_reduce_lem rid (one_map {input} {inputs} count content w) lt = ground (
    arith,
    content rid,
    count,
    read_reduce_lem rid w lt,
    select-append (λ x. t.partition x == rid) input (flatten inputs),
  )
