-- ===== src/Tests/Reading.antt =====
-- The manifests of a map that ran twice and of one that ran once.
use go_spark.Prelude.{◌≡◌, refl, List, [], ◌∷◌}
use go_spark.Prelude.Maps.{pair_eq, lookup, OneEntry}
use go_spark.Scheduler.{Manifest, PartitionKey}
use go_spark.Manifests.{latest_manifests}
use go_spark.Manifests.Ordered.{entries}
use go_spark.Manifests.Latest.{IsLatest, latest_manifests-IsLatest}

abbrev first : Manifest
first = record { job_id = 5; shuffle_id = 1; map_id = 0; attempt = 0 }

abbrev other : Manifest
other = record { job_id = 5; shuffle_id = 1; map_id = 1; attempt = 0 }

abbrev again : Manifest
again = record { job_id = 5; shuffle_id = 1; map_id = 0; attempt = 2 }

abbrev manifests : List Manifest
manifests = first ∷ other ∷ again ∷ first ∷ []

kept : latest_manifests manifests ≡ again ∷ other ∷ []
unfolding latest_manifests
kept = refl

latest_manifests-IsLatest_example :
    OneEntry (entries (latest_manifests manifests))
    × ((k : PartitionKey) → IsLatest k manifests (lookup k (entries (latest_manifests manifests))))
latest_manifests-IsLatest_example = latest_manifests-IsLatest manifests
