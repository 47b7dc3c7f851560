-- ===== src/Lib.antt =====
-- goSpark: an RDD library whose jobs run in one process or on workers. The modules below model the
-- part of it that decides which record goes where, in which order, and which task runs next.
--
-- The parts and how they meet:
--   - An RDD has dependencies. The planner (planner.go) cuts the lineage at its shuffles into stages.
--   - The scheduler (scheduler.go) runs the stages in an order in which each comes after its parents,
--     picks a worker for each task, checks its result, and, when a map output is lost, forgets it
--     with all that was computed from it and runs those tasks again.
--   - A map task (file_shuffle.go) writes each record into the bucket of its reducer, which a
--     partitioner (partitioner.go) picks; a reduce task reads its bucket of each map.
--   - SortByKey (pair_rdd.go, range_sort.go) samples the keys, takes ascending bounds from the samples,
--     shuffles by range, and sorts each range by the external sort (external_sort.go).
--   - Records flow through iterators (iterator.go).
--
-- Which file models which part:
--   - Prelude: lists, options and tests on native numbers; Prelude.Maps: Go maps as association lists;
--     Prelude.Results: errors as values. A panic by `must` is an error, too.
--   - Order: sort.SliceStable of the standard library, as an insertion sort.
--   - ExternalSort: externalSort. A run file is the list of its records; `levels` holds runs that
--     are as old as their level is high. `merge`, `push` and `flush` are the closures of that name.
--   - Iterator: an iterator is a step function on a state; its calls are those of the closure.
--   - Partitioner: the GetPartition methods, with fnv1a and sort.Search of the standard library.
--   - Shuffle: writeStreamMap on the records of its partition, and the stream of a reduce task.
--   - RangeSort: sampleSortPartition, appendSortSamples and selectRangeBounds with the wrap-around of
--     uint64, the loop over the map partitions, and the reduce side of SortByKey.
--   - Planner: parentStages, getShuffleMapStage, uniqueInts and the stages of PlanRDD. An RDD is its
--     number, and a lineage gives each number its partitions and dependencies.
--     Planner.Ordered: orderedStages and stageByID of scheduler.go.
--   - Scheduler: validateTaskResult, dropWorkerCache, rememberWorkerCache and pickWorkerIndexFor; the
--     answers of the workers are a parameter. Scheduler.Recovery: invalidate. Scheduler.Tasks: tasks and
--     the acceptance of results. Scheduler.Retry: ensureRetry. Scheduler.Waves: runStage. Scheduler.Samples:
--     sampleStage. Scheduler.Jobs: scheduleResults and scheduleContext. What workers, context and callbacks
--     answer is a World, which the state's clock asks; what a job is submitted with is a Submission. The
--     tasks of a wave run at once and are taken in the order of their partitions. Scheduler.Gives and Scheduler.Valid: their results and states.
--   - Aggregate: aggregatePairs (external_aggregate.go) on the stream of a reduce task; the order of the
--     tokens that keyToken writes is a parameter.
--   - Rdds: RDDs as the records of their partitions: Parallelize, Union, Coalesce, the Cartesian product,
--     Map, FlatMap and Filter, the actions Collect, Count, Reduce, Fold and Take, and the tree actions with
--     what the driver of a job merges. What goroutines compute of each partition is put together in
--     partition order, as the code does.
--   - DiskBudget: the budget of a worker's disk (shuffle_budget.go). Accumulators: accumulator.go.
--     LocalShuffle: the shuffle manager of one process (shuffle.go). Combine: combineMapOutput
--     (shuffle_combine.go). Commit: SelectedOutputs and CommitDistributedOutput (distributed_output.go).
--     Manifests: latestManifests, by which a result task chooses what to read (scheduler.go).
--     Caches: the persisted partitions of an RDD, and what a task tells the scheduler of them (persist.go,
--     rdd.go, context.go). Joins: cogroup and the joins of pair RDDs (pair_rdd.go, external_aggregate.go).
--     Saves: a job from its plan to the marker of its output (scheduler.go, distributed_output.go).
--     TextInput: the splits of a text file and the lines read from them (rdd_creators.go).
--   - Tests: the theorems at concrete inputs.
--
-- Fuel: `parent_stages` takes a unit for each round of its loop and for each shuffle below it; the
-- weight of an RDD, one for each path down from it, is enough, as its theorem says. The loops inside
-- FilterIterator, FlatMapIterator and expandIterator, and those that use an iterator up, take a unit for
-- each record and one more. The binary search takes as many rounds as there are bounds. The outer loop
-- of orderedStages takes a round for each stage. ensureRetry takes a unit for each round, and what is left
-- is the fuel of its parents: for each stage up to its own, the limits of repairs and attempts and one more
-- are enough. runStage and sampleStage take a wave for each partition, and scheduleResults a round for each
-- repair and one more. A split of a text file takes a unit for each line and one more, for which its bytes
-- and two are enough.
--
-- Integers that the code counts with are natural numbers; hashes, seeds and sample counters wrap as
-- uint32 and uint64 do, and the products of Parallelize as an int of 64 bits. Negative numbers of partitions are not modelled.
--
-- Not modelled: what cache identities are for, job cleanup and the OnRepair callback of the scheduler; cache hints
-- and fingerprints of plans; the executor but for that choice; constructors of pair RDDs;
-- directories of text files, samples and splits; stores and local output commits; input splits; and what
-- is input and output or another system's: files, HTTP, gob encoding, Kubernetes, S3, and machine
-- learning. User functions are parameters.
pub mod Prelude
pub mod Order
pub mod ExternalSort
pub mod Iterator
pub mod Partitioner
pub mod Shuffle
pub mod RangeSort
pub mod Planner
pub mod Scheduler
pub mod Rdds
pub mod Aggregate
pub mod DiskBudget
pub mod Accumulators
pub mod Joins
pub mod LocalShuffle
pub mod Manifests
pub mod Caches
pub mod Combine
pub mod Commit
pub mod Saves
pub mod TextInput
mod Tests
