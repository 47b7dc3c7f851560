-- ===== src/Scheduler/Gives.antt =====
-- scheduler.go: how a job may fail, and what a call gives unless it fails so.
use go_spark.Prelude.{◌≡◌, refl, Bool, true, false, Option, none, some, if◌then◌else◌}
use go_spark.Prelude.Results.{ok, err, guard, ◌>>=◌, ◌>>◌}
use go_spark.Scheduler.Tasks.{
  JobError, canceled, no_workers, retries_exhausted, hook_failed, encode_failed, missing_parent,
  nil_manifest, index_panic, invalid_dag, out_of_fuel, not_for_saves, bad_cache_identity,
  unbound_accumulators, negative_limit, plan_failed, no_random, unknown_accumulator, recovery, Run,
}

-- The errors that a job may end with: those of what is submitted, the workers, the context, the
-- callbacks, the limits and the accumulators.
-- A panic is none of them.
abbrev pub IsFailure : JobError → Type 0
IsFailure canceled = Unit
IsFailure no_workers = Unit
IsFailure retries_exhausted = Unit
IsFailure hook_failed = Unit
IsFailure encode_failed = Unit
IsFailure missing_parent = ⊥
IsFailure nil_manifest = ⊥
IsFailure index_panic = ⊥
IsFailure not_for_saves = Unit
IsFailure bad_cache_identity = Unit
IsFailure unbound_accumulators = Unit
IsFailure negative_limit = Unit
IsFailure plan_failed = Unit
IsFailure no_random = Unit
IsFailure unknown_accumulator = Unit
IsFailure invalid_dag = ⊥
IsFailure out_of_fuel = ⊥
IsFailure (recovery e) = Unit

abbrev pub Holds {ℓ} : {A : Type ℓ} → (A → Type 0) → Run A → Type 0
Holds P (ok a) = P a
Holds P (err e) = IsFailure e

-- A run fails as a job may, or gives a value of which `P` holds.
pub record Gives {ℓ} {A : Type ℓ} (P : A → Type 0) (m : Run A) : Type 0 where
  pub holds : Holds P m

module _ {ℓ} {A : Type ℓ} {P : A → Type 0} where
  pub Gives-ok : {a : A} → P a → Gives P (ok a)
  Gives-ok h = record { holds = h }

  pub Gives-err : {e : JobError} → IsFailure e → Gives P (err e)
  Gives-err h = record { holds = h }

  pub Gives->>= {κ} :
      {B : Type κ} {Q : B → Type 0} {m : Run B} (f : B → Run A)
      → Gives Q m
      → ((b : B) → Q b → Gives P (f b))
      → Gives P (m >>= f)
  Gives->>= {m = ok b} f g h = h b g.holds
  Gives->>= {m = err e} f g h = record { holds = g.holds }

  pub Gives-if :
      (b : Bool) (x y : Run A)
      → (b ≡ true → Gives P x)
      → (b ≡ false → Gives P y)
      → Gives P (if b then x else y)
  Gives-if true x y f g = f refl
  Gives-if false x y f g = g refl

  pub Gives-Option {κ} :
      {B : Type κ} (o : Option B) (n : Run A) (f : B → Run A)
      → (o ≡ none → Gives P n)
      → ((b : B) → o ≡ some b → Gives P (f b))
      → Gives P (elim o [ none ↦ n | some b ↦ f b ])
  Gives-Option none n f g h = g refl
  Gives-Option (some b) n f g h = h b refl

  pub Gives-imp : {Q : A → Type 0} {m : Run A} → Gives Q m → ((a : A) → Q a → P a) → Gives P m
  Gives-imp {m = ok a} g h = record { holds = h a g.holds }
  Gives-imp {m = err e} g h = record { holds = g.holds }

  pub Gives-guard :
      (b : Bool) (e : JobError) {m : Run A} → IsFailure e → Gives P m → Gives P (guard b e >> m)
  Gives-guard true e h g = g
  Gives-guard false e h g = record { holds = h }
