-- ===== src/Tests/Prunes.antt =====
-- Pruning an app of the backend in memory.
use cronix.Prelude.{refl, [], ◌∷◌, List, true, ◌≡◌, if◌then◌else◌}
use cronix.Prelude.Text.{codes, equal}
use cronix.Manifest.Validate.{match_id}
use cronix.Prune
use cronix.Prune.Removal.{prune-marks, IsPruned}
use cronix.Tests.Memory.{memory, memory_contract}
use cronix.Backends.{ManagedEntry}
use cronix.Reconcile.{AppJob}
use cronix.Reconcile.Grouping.{marks_of}

abbrev two_apps : List ManagedEntry
two_apps =
    record { app = codes "billing"; job = codes "report"; hash = codes "0a"; index = 0; raw = [] }
    ∷ record { app = codes "shop"; job = codes "sync"; hash = codes "0b"; index = 0; raw = [] }
    ∷ []

prune-marks_example :
    IsPruned memory memory_contract (Prune.prune memory true (codes "billing") two_apps)
    × Unit {0}
    × ((k : AppJob)
        → marks_of k (Prune.prune memory true (codes "billing") two_apps).0
          ≡ (if equal k.app (codes "billing") then [] else marks_of k two_apps))
unfolding match_id
prune-marks_example = prune-marks memory memory_contract b'b' (codes "illing") two_apps tt refl
