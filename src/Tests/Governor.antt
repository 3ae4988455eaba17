-- ===== src/Tests/Governor.antt =====
-- Instances of the theorems on the planner of the governor.
use the_six.Base.{ℕ, ◌+◌, ◌≡◌, ◌≤◌, refl, true, false, List, [], ◌∷◌, length, ◌==◌}
use the_six.Tier.{l2, as_usize}
use the_six.Entry.{ready}
use the_six.Continuity.{healthy, unavailable}
use the_six.Governor.{fully_autonomous, GovernorSettings, Observation, plan_tick}
use the_six.Base.Result.{Result, ok, err, timeout}
use the_six.Governor.Moves.{no_moves, apply_moves, apply_moves-bound}

-- The rung of L2 is unavailable and under pressure, and the others are healthy.
abbrev observation : Observation
observation = record {
  is_pressured = λ t. as_usize t == 2;
  rung_state = λ t. elim (as_usize t == 2) [ true ↦ unavailable | false ↦ healthy ];
  census =
      record { index = 0; identity = 11; tier = l2; state = ready }
      ∷ record { index = 1; identity = 12; tier = l2; state = ready }
      ∷ record { index = 2; identity = 13; tier = l2; state = ready }
      ∷ [];
}

-- The first two keys are read often, the third never.
abbrev heat : List (ℕ × ℕ)
heat = (11, 50) ∷ (12, 60) ∷ []

abbrev settings : GovernorSettings
settings = record {
  mode = fully_autonomous;
  max_moves_per_tick = 8;
  max_rebinds_per_tick = 1;
  hot_heat = 8;
}

planned_promote : (plan_tick observation heat settings).promote ≡ 1 ∷ 0 ∷ []
unfolding plan_tick
planned_promote = refl

planned_demote : (plan_tick observation heat settings).demote ≡ 2 ∷ []
unfolding plan_tick
planned_demote = refl

planned_rebind : (plan_tick observation heat settings).rebind ≡ l2 ∷ []
unfolding plan_tick
planned_rebind = refl

-- A manager that counts its calls, and whose promotions time out.
abbrev demotes : ℕ → ℕ → ℕ × Result {0} Unit
demotes calls key = (calls + 1, ok tt)

abbrev times_out : ℕ → ℕ → ℕ × Result {0} Unit
times_out calls key = (calls + 1, err timeout)

planned_calls :
    (apply_moves
      (11 ∷ 12 ∷ 13 ∷ [])
      demotes
      times_out
      settings
      (plan_tick observation heat settings)
      0
      no_moves).0
    ≡ 3
unfolding apply_moves plan_tick
planned_calls = refl

apply_moves-bound_example :
    let plan = plan_tick observation heat settings in
    let done = (apply_moves (11 ∷ 12 ∷ 13 ∷ []) demotes times_out settings plan 0 no_moves).1 in
    (done.demoted + done.promoted ≤ settings.max_moves_per_tick)
    × (done.demoted + done.promoted + done.move_failures ≤ length plan.demote + length plan.promote)
apply_moves-bound_example =
    apply_moves-bound (11 ∷ 12 ∷ 13 ∷ []) demotes times_out settings
      (plan_tick observation heat settings) 0
