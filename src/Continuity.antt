-- ===== src/Continuity.antt =====
-- `ContinuityState` of `src/continuity.rs`: the condition of a rung as a consumer sees it.
use the_six.Base.{ℕ, Bool, true, false}

pub data ContinuityState : Type 0 where
  healthy degraded unavailable recovering reconciling : ContinuityState

unfoldable pub is_serving : ContinuityState → Bool
is_serving healthy = true
is_serving degraded = true
is_serving _ = false

unfoldable pub accepts_writes : ContinuityState → Bool
accepts_writes healthy = true
accepts_writes reconciling = true
accepts_writes _ = false

-- `FAILURE_THRESHOLD`: after so many failures in a row a rung is unavailable.
abbrev pub failure_threshold : ℕ
failure_threshold = 5
