-- ===== src/Governor.antt =====
-- The planner of `src/governor/mod.rs`: what a tick of the governor decides from one observation.
-- Whether a rung is under pressure compares `f64` ratios, so it is a field of the observation. The
-- interval of the ticks and the age of a recovery are not read by the planner.
pub mod Census
pub mod Plan
pub mod Moves
use the_six.Base.Sorting.{sort_by}
use the_six.Base.{
  ℕ, zero, suc, Bool, true, false, ◌&&◌, ◌||◌, List, [], ◌∷◌, map, ◌==◌, ltb, leb, length, take,
  filter, if◌then◌else◌,
}
use the_six.Tier.{TierId, l5, all, as_usize, is_cache_rung}
use the_six.Continuity.{ContinuityState, degraded, unavailable}
use the_six.Entry.{EntryState, ready}
use the_six.Control.Handlers.{is_state}

pub data GovernorMode : Type 0 where
  manual semi_autonomous fully_autonomous : GovernorMode

unfoldable pub executes_maintenance : GovernorMode → Bool
executes_maintenance manual = false
executes_maintenance _ = true

unfoldable pub executes_moves : GovernorMode → Bool
executes_moves fully_autonomous = true
executes_moves _ = false

pub record GovernorSettings : Type 0 where
  pub mode : GovernorMode
  pub max_moves_per_tick : ℕ
  pub max_rebinds_per_tick : ℕ
  pub hot_heat : ℕ

pub data Skip : Type 0 where
  no_heat_source no_census : Skip

pub record GovernorPlan : Type 0 where
  pub recovery_sweep : Bool
  pub expire_sweep : Bool
  pub rebind : List TierId
  pub promote : List ℕ
  pub demote : List ℕ
  pub skipped : List Skip

pub record CensusEntryView : Type 0 where
  pub index : ℕ
  pub identity : ℕ
  pub tier : TierId
  pub state : EntryState

pub record Observation : Type 0 where
  pub is_pressured : TierId → Bool
  pub rung_state : TierId → ContinuityState
  pub census : List CensusEntryView

-- `heat.get(&identity).copied().unwrap_or(0)`, on the counted reads of each identity.
unfoldable pub heat_of : List (ℕ × ℕ) → ℕ → ℕ
heat_of [] identity = 0
heat_of ((key, reads) ∷ heat) identity =
    let rest = heat_of heat identity in if key == identity then reads else rest

unfoldable pub is_degraded : ContinuityState → Bool
is_degraded degraded = true
is_degraded unavailable = true
is_degraded _ = false

-- The deepest rung first.
abbrev pub deeper : TierId → TierId → Bool
deeper a b = leb (as_usize b) (as_usize a)

unfoldable pub rungs_to_rebind : Observation → GovernorSettings → List TierId
unfolding is_cache_rung is_degraded as_usize
rungs_to_rebind observation settings =
    take settings.max_rebinds_per_tick
      (sort_by deeper (filter (λ t. is_cache_rung t && is_degraded (observation.rung_state t)) all))

unfoldable pub is_hot : List (ℕ × ℕ) → GovernorSettings → CensusEntryView → Bool
unfolding is_state is_cache_rung as_usize heat_of
is_hot heat settings v =
    is_state v.state ready
    && is_cache_rung v.tier
    && ltb 0 (as_usize v.tier)
    && leb settings.hot_heat (heat_of heat v.identity)

-- The hottest view first, and of equal heat the later one.
abbrev pub hotter : List (ℕ × ℕ) → CensusEntryView → CensusEntryView → Bool
hotter heat v u =
    ltb (heat_of heat u.identity) (heat_of heat v.identity)
    || (heat_of heat u.identity == heat_of heat v.identity && leb u.index v.index)

-- The loop that spends the budget: what is left of it, and the indices to promote.
unfoldable pub spend : ℕ → List CensusEntryView → ℕ × List ℕ
spend budget [] = (budget, [])
spend zero (view ∷ views) = (zero, [])
spend (suc budget) (view ∷ views) = let rest = spend budget views in (rest.0, view.index ∷ rest.1)

unfoldable pub is_cold : Observation → List (ℕ × ℕ) → CensusEntryView → Bool
unfolding is_state is_cache_rung as_usize heat_of
is_cold observation heat v =
    is_state v.state ready
    && is_cache_rung v.tier
    && ltb (as_usize v.tier) (as_usize l5)
    && observation.is_pressured v.tier
    && heat_of heat v.identity == 0

-- The plan before the legs that move entries, and with a reason to skip them.
unfoldable pub maintenance_plan : List TierId → List Skip → GovernorPlan
maintenance_plan rebind skipped = record {
  recovery_sweep = true;
  expire_sweep = true;
  rebind = rebind;
  promote = [];
  demote = [];
  skipped = skipped;
}

-- The promotions, and the demotions where a part of the budget is left.
unfoldable pub with_moves :
    Observation → List (ℕ × ℕ) → GovernorSettings → GovernorPlan → GovernorPlan
unfolding spend is_hot is_cold heat_of
with_moves observation heat settings plan =
    let promoted =
      spend settings.max_moves_per_tick
        (sort_by (hotter heat) (filter (is_hot heat settings) observation.census)) in
    let cold = map (λ v. v.index) (filter (is_cold observation heat) observation.census) in
    record plan { promote = promoted.1; demote = if ltb 0 promoted.0 then cold else [] }

unfoldable pub plan_tick : Observation → List (ℕ × ℕ) → GovernorSettings → GovernorPlan
unfolding rungs_to_rebind maintenance_plan with_moves
plan_tick observation heat settings =
    let rebind = rungs_to_rebind observation settings in
    if length observation.census == 0
    then maintenance_plan rebind (no_census ∷ [])
    else if length heat == 0
    then maintenance_plan rebind (no_heat_source ∷ [])
    else with_moves observation heat settings (maintenance_plan rebind [])
