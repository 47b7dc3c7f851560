-- ===== src/Accumulators.antt =====
-- accumulator.go: the accumulators of a context, and what the driver merges into them. A name is its
-- bytes. An int64 is its residue modulo 2 ^ 64; the float64 numbers and their sum are parameters.
pub mod Totals
pub mod Bound
use go_spark.Prelude.{
  ℕ, ◌+◌, ◌%◌, ◌^◌, Bool, true, false, not, ◌&&◌, ◌||◌, Option, none, some, List, [], ◌∷◌, ◌++◌,
  ltb, ◌==◌, if◌then◌else◌, length, map,
}
use go_spark.Prelude.Maps.{Eq, list_eq, lookup, delete, assign}
use go_spark.Prelude.Results.{Result, ok, err, guard, ◌>>◌, ◌>>=◌}

abbrev pub Name : Type 0
Name = List ℕ

pub data Kind : Type 0 where
  int64 float64 : Kind

abbrev pub Kind_beq : Kind → Kind → Bool
Kind_beq int64 int64 = true
Kind_beq float64 float64 = true
Kind_beq _ _ = false

pub data AccumulatorError : Type 0 where
  bad_name not_declared wrong_type task_reads task_binds unknown_or_mismatched : AccumulatorError

pub record AccumulatorValue (F : Type 0) : Type 0 where
  pub kind : Kind
  pub int64_value : ℕ
  pub float64_value : F

-- An accumulatorSet; a nil map is an empty one.
pub record AccumulatorSet (F : Type 0) : Type 0 where
  pub values : List (Name × AccumulatorValue F)
  pub task : Bool
  pub declared : Bool

-- The updates of a task, an AccumulatorUpdates map.
abbrev pub Updates : Type 0 → Type 0
Updates F = List (Name × AccumulatorValue F)

-- A call of Add.
pub data Addition (F : Type 0) : Type 0 where
  to_int64 : Name → ℕ → Addition F
  to_float64 : Name → F → Addition F

module _ {F : Type 0} (zero_value : F) (add : F → F → F) where
  abbrev pub fresh : Kind → AccumulatorValue F
  fresh kind = record { kind = kind; int64_value = 0; float64_value = zero_value }

  -- s.values[name]; a missing one is the zero value, whose kind is neither.
  abbrev pub kind_is : Kind → Option (AccumulatorValue F) → Bool
  kind_is kind none = false
  kind_is kind (some v) = Kind_beq v.kind kind

  -- accumulator, which registers a name.
  unfoldable pub accumulator :
      Name → Kind → AccumulatorSet F → Result AccumulatorError (AccumulatorSet F)
  unfolding assign
  accumulator name kind s =
      if length name == 0 || ltb 128 (length name)
      then err bad_name
      else if s.declared && not (kind_is kind (lookup name s.values))
      then err not_declared
      else elim (lookup name s.values) [
        | none ↦ ok (record s { values = assign name (fresh kind) s.values })
        | some v ↦ if Kind_beq v.kind kind then ok s else err wrong_type
      ]

  -- v.Int64 += a; v.Float64 += b
  abbrev pub increased : ℕ → F → AccumulatorValue F → AccumulatorValue F
  increased a b v = record v {
    int64_value = (v.int64_value + a) % 2 ^ 64;
    float64_value = add v.float64_value b;
  }

  -- Int64Accumulator.Add, of a registered name.
  unfoldable pub add_int64 : Name → ℕ → AccumulatorSet F → AccumulatorSet F
  unfolding assign
  add_int64 name delta s = elim (lookup name s.values) [
    | none ↦ s
    | some v ↦ record s {
      values = assign name (record v { int64_value = (v.int64_value + delta) % 2 ^ 64 }) s.values;
    }
  ]

  -- Float64Accumulator.Add, of a registered name.
  unfoldable pub add_float64 : Name → F → AccumulatorSet F → AccumulatorSet F
  unfolding assign
  add_float64 name delta s = elim (lookup name s.values) [
    | none ↦ s
    | some v ↦ record s {
      values = assign name (record v { float64_value = add v.float64_value delta }) s.values;
    }
  ]

  -- What a task adds, one call after the other.
  unfoldable pub additions : List (Addition F) → AccumulatorSet F → AccumulatorSet F
  unfolding add_int64 add_float64
  additions [] s = s
  additions (to_int64 name delta ∷ more) s = additions more (add_int64 name delta s)
  additions (to_float64 name delta ∷ more) s = additions more (add_float64 name delta s)

  -- Int64Accumulator.Value, of a registered name.
  unfoldable pub int64_of : Name → AccumulatorSet F → Result AccumulatorError ℕ
  int64_of name s =
      if s.task
      then err task_reads
      else elim (lookup name s.values) [ none ↦ ok 0 | some v ↦ ok v.int64_value ]

  -- Float64Accumulator.Value, of a registered name.
  unfoldable pub float64_of : Name → AccumulatorSet F → Result AccumulatorError F
  float64_of name s =
      if s.task
      then err task_reads
      else elim (lookup name s.values) [ none ↦ ok zero_value | some v ↦ ok v.float64_value ]

  -- BindAccumulators: the definitions that the job carries.
  unfoldable pub bind_accumulators : AccumulatorSet F → Result AccumulatorError (List (Name × Kind))
  bind_accumulators s = if s.task then err task_binds else ok (map (λ e. (e.0, e.1.kind)) s.values)

  unfoldable pub declare : List (Name × Kind) → Updates F → Updates F
  unfolding assign
  declare [] m = m
  declare ((name, kind) ∷ defs) m = declare defs (assign name (fresh kind) m)

  -- prepareAccumulators, of the context of a task.
  unfoldable pub prepare_accumulators : List (Name × Kind) → AccumulatorSet F
  unfolding declare
  prepare_accumulators defs = record { values = declare defs []; task = true; declared = true }

  -- The updates of a task: what it adds to the accumulators of its own context.
  unfoldable pub task_updates : List (Name × Kind) → List (Addition F) → Updates F
  unfolding prepare_accumulators additions
  task_updates defs adds = (additions adds (prepare_accumulators defs)).values

  -- The first loop of mergeAccumulators, over the updates of one result.
  unfoldable pub all_known : AccumulatorSet F → Updates F → Bool
  all_known s [] = true
  all_known s ((name, v) ∷ updates) = kind_is v.kind (lookup name s.values) && all_known s updates

  unfoldable pub all_results_known : AccumulatorSet F → List (Updates F) → Bool
  unfolding all_known
  all_results_known s [] = true
  all_results_known s (updates ∷ results) = all_known s updates && all_results_known s results

  -- The second loop.
  unfoldable pub merge_update : Name → AccumulatorValue F → AccumulatorSet F → AccumulatorSet F
  unfolding assign
  merge_update name v s = elim (lookup name s.values) [
    | none ↦ s
    | some old ↦ record s {
      values = assign name (increased v.int64_value v.float64_value old) s.values;
    }
  ]

  unfoldable pub merge_updates : Updates F → AccumulatorSet F → AccumulatorSet F
  unfolding merge_update
  merge_updates [] s = s
  merge_updates ((name, v) ∷ updates) s = merge_updates updates (merge_update name v s)

  unfoldable pub merge_results : List (Updates F) → AccumulatorSet F → AccumulatorSet F
  unfolding merge_updates
  merge_results [] s = s
  merge_results (updates ∷ results) s = merge_results results (merge_updates updates s)

  -- mergeAccumulators, of the updates of the accepted results in the order of the iteration.
  unfoldable pub merge_accumulators :
      List (Updates F) → AccumulatorSet F → Result AccumulatorError (AccumulatorSet F)
  unfolding all_results_known merge_results
  merge_accumulators results s =
      if all_results_known s results
      then ok (merge_results results s)
      else err unknown_or_mismatched
