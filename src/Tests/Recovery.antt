-- ===== src/Tests/Recovery.antt =====
-- Instances of the theorems on recovery and on the registry of rungs.
use the_six.Base.{◌≡◌, List, [], ◌∷◌, leb}
use mathlib.Core.Option
use the_six.Entry.{write, CommitIntent}
use the_six.Tier.{l0, l2}
use the_six.Tier.Registry.{is_tier_open}
use the_six.Tier.Registry.Circuit.{
  Report, fails, recovers, registry_after, streak, is_tier_open-streak,
}
use the_six.Integrity.{KeyAddress}
use the_six.Tests.Plane.{address}

abbrev intents : List (KeyAddress × CommitIntent)
intents =
    (address, record { kind = write; target_tier = 2; generation = 0; started_nanos = 10 }) ∷ []

abbrev reports : List Report
reports = fails l2 ∷ recovers l0 ∷ fails l2 ∷ fails l2 ∷ fails l2 ∷ fails l2 ∷ recovers l2 ∷ []

is_tier_open-streak_example : is_tier_open (registry_after reports) l2 ≡ leb 5 (streak l2 reports)
is_tier_open-streak_example = is_tier_open-streak l2 reports
