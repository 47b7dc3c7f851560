-- ===== src/Scheduler/Workers.antt =====
-- scheduler.go: which worker caches what.
use go_spark.Prelude.{
  ℕ, ◌≡◌, true, false, not, ◌&&◌, ◌||◌, none, List, [], ◌∷◌, arith, ◌==◌, if◌then◌else◌,
}
use go_spark.Prelude.Maps.{
  lookup, delete, assign, contains, remove, nat_eq, pair_eq, pair_beq, pair_beq_iff, lookup-delete,
  lookup-assign, contains-remove,
}
use go_spark.Scheduler.{
  PartitionKey, drop_worker_cache, keep_workers, workers_of, forget, note, remember_worker_cache,
  caches,
}

-- One entry for each key.
abbrev pub Distinct : List (PartitionKey × List ℕ) → Type 0
Distinct [] = Unit
Distinct ((key, ws) ∷ m) = (lookup key m ≡ none) × Distinct m

lookup-drop_worker_cache :
    (w : ℕ) (key : PartitionKey) (m : List (PartitionKey × List ℕ))
    → lookup key m ≡ none
    → lookup key (drop_worker_cache w m) ≡ none
unfolding drop_worker_cache
lookup-drop_worker_cache w key [] h = h
lookup-drop_worker_cache w key ((k, ws) ∷ m) h = ground (arith, lookup-drop_worker_cache w key m)

-- A dropped worker caches nothing, and the others cache what they did, for locations with one entry
-- for each key.
pub caches-drop_worker_cache :
    (v w : ℕ) (key : PartitionKey) (m : List (PartitionKey × List ℕ))
    → Distinct m
    → caches v key (drop_worker_cache w m) ≡ (if w == v then false else caches v key m)
unfolding drop_worker_cache
caches-drop_worker_cache v w key [] d = ground arith
caches-drop_worker_cache v w key ((k, ws) ∷ m) d = ground (
  arith,
  caches-drop_worker_cache v w key m d.1,
  contains-remove v w ws,
  lookup-drop_worker_cache w key m,
  pair_beq_iff k key,
)

lookup-keep_workers :
    (k key : PartitionKey) (ws : List ℕ) (m : List (PartitionKey × List ℕ)) (v : ℕ)
    → lookup k m ≡ none
    → caches v key (keep_workers k ws m)
      ≡ (if pair_beq k key then contains v ws else caches v key m)
lookup-keep_workers k key [] m v h = ground (arith, pair_beq_iff k key)
lookup-keep_workers k key (w ∷ ws) m v h = ground arith

-- A worker that dropped partitions caches the others, and the other workers cache what they did.
caches-forget :
    (v w : ℕ) (key : PartitionKey) (dropped : List PartitionKey) (m : List (PartitionKey × List ℕ))
    → caches v key (forget w dropped m)
      ≡ (if w == v && contains key dropped then false else caches v key m)
unfolding forget
caches-forget v w key [] m = ground arith
caches-forget v w key (k ∷ dropped) m = ground (
  arith,
  caches-forget v w key dropped (keep_workers k (remove w (workers_of k m)) (delete k m)),
  lookup-keep_workers k key (remove w (workers_of k m)) (delete k m) v,
  lookup-delete k k m,
  lookup-delete key k m,
  contains-remove v w (workers_of k m),
  pair_beq_iff k key,
  pair_beq_iff k k,
)

caches-note :
    (v w : ℕ) (key : PartitionKey) (cached : List PartitionKey) (m : List (PartitionKey × List ℕ))
    → caches v key (note w cached m)
      ≡ (if w == v && contains key cached then true else caches v key m)
unfolding note
caches-note v w key [] m = ground arith
caches-note v w key (k ∷ cached) m = ground (
  arith,
  caches-note v w key cached (assign k (w ∷ workers_of k m) m),
  lookup-assign key k (w ∷ workers_of k m) m,
  pair_beq_iff k key,
)

-- After a task's report its worker caches what it reports as cached, not what it reports only as
-- dropped, and otherwise what it did; the other workers cache what they did.
pub caches-remember_worker_cache :
    (v w : ℕ) (key : PartitionKey) (cached dropped : List PartitionKey)
    (m : List (PartitionKey × List ℕ))
    → caches v key (remember_worker_cache w cached dropped m) ≡ (
        if w == v
        then contains key cached || (not (contains key dropped) && caches v key m)
        else caches v key m)
unfolding remember_worker_cache
caches-remember_worker_cache v w key cached dropped m =
    ground (arith, caches-note v w key cached (forget w dropped m), caches-forget v w key dropped m)
