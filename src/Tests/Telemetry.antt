-- ===== src/Tests/Telemetry.antt =====
-- Instances of the theorems on the telemetry.
use the_six.Base.{ℕ, ◌≡◌, List, [], ◌∷◌, ltb, if◌then◌else◌}
use the_six.Telemetry
use the_six.Telemetry.{OperationRecord, begin_record}
use the_six.Telemetry.Ring.{new_ring, keep_all, last_of, keep_all-new_ring}

abbrev samples : List ℕ
samples = 7 ∷ 3 ∷ 9 ∷ 1 ∷ []

abbrev records : List OperationRecord
records =
    begin_record Telemetry.get (1 ∷ [])
    ∷ begin_record Telemetry.set (2 ∷ [])
    ∷ begin_record Telemetry.get (3 ∷ [])
    ∷ []

keep_all-new_ring_example :
    (keep_all (new_ring 2) records).buf ≡ last_of (if ltb 2 1 then 1 else 2) records
keep_all-new_ring_example = keep_all-new_ring 2 records
