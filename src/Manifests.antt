-- ===== src/Manifests.antt =====
-- scheduler.go: the latest manifest of each map output, which a result task reads.
pub mod Ordered
pub mod Latest
use go_spark.Prelude.{Option, none, some, List, [], ◌∷◌, ◌++◌, ltb, if◌then◌else◌}
use go_spark.Prelude.Maps.{pair_eq, lookup, assign}
use go_spark.Scheduler.{Manifest, PartitionKey}

-- The shuffle and the map of an output.
abbrev pub output_key : Manifest → PartitionKey
output_key m = (m.shuffle_id, m.map_id)

-- The first loop of latestManifests.
unfoldable pub best_from :
    List Manifest
    → List (PartitionKey × Manifest)
    → List PartitionKey
    → List (PartitionKey × Manifest) × List PartitionKey
unfolding assign
best_from [] best order = (best, order)
best_from (m ∷ maps) best order = elim (lookup (output_key m) best) [
  | none ↦ best_from maps (assign (output_key m) m best) (order ++ output_key m ∷ [])
  | some old ↦
      best_from maps (if ltb old.attempt m.attempt then assign (output_key m) m best else best)
        order
]

-- What a Go map gives for a key that it does not have.
abbrev pub no_manifest : Manifest
no_manifest = record { job_id = 0; shuffle_id = 0; map_id = 0; attempt = 0 }

-- Its second loop.
unfoldable pub in_order : List PartitionKey → List (PartitionKey × Manifest) → List Manifest
in_order [] best = []
in_order (k ∷ order) best = elim (lookup k best) [
  | none ↦ no_manifest ∷ in_order order best
  | some m ↦ m ∷ in_order order best
]

-- latestManifests
unfoldable pub latest_manifests : List Manifest → List Manifest
unfolding best_from in_order
latest_manifests maps = let (best, order) = best_from maps [] [] in in_order order best
