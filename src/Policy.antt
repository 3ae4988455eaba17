-- ===== src/Policy.antt =====
-- `src/policy.rs`: how a request is routed to a rung. The health of a tier is its count of failures,
-- and whether its `availability` (an `f64`) is above 0.
pub mod Routes
use the_six.Base.{
  ℕ, ◌+◌, Bool, true, false, not, ◌&&◌, ◌||◌, zero, suc, List, [], ◌∷◌, leb, if◌then◌else◌, Option,
  ◌==◌,
}
use mathlib.Core.Option
use the_six.Tier.{TierId, l0, l1, l2, l3, l4, l5, as_usize, from_usize}

pub data CacheOperation : Type 0 where
  get set remove invalidate refresh exists promote demote : CacheOperation

pub data PopulationStrategy : Type 0 where
  single_flight allow_duplicate : PopulationStrategy

pub data FailMode : Type 0 where
  fail_open fail_closed : FailMode

-- `TierHealth`, in `src/tier/trait.rs`.
pub record TierHealth : Type 0 where
  pub consecutive_failures : ℕ
  pub has_availability : Bool

unfoldable pub is_circuit_open : TierHealth → Bool
is_circuit_open h = leb 5 h.consecutive_failures

-- The parts of `CacheState` that the policies read.
pub record CacheState : Type 0 where
  pub tier : TierId
  pub tier_health : TierHealth

pub record PolicyDecision : Type 0 where
  pub authorized : Bool
  pub tier : TierId
  pub operation : CacheOperation
  pub population : PopulationStrategy
  pub fail_mode : FailMode

unfoldable pub allow : TierId → PolicyDecision
allow tier = record {
  authorized = true;
  tier = tier;
  operation = get;
  population = single_flight;
  fail_mode = fail_open;
}

unfoldable pub deny : PolicyDecision
deny = record {
  authorized = false;
  tier = l0;
  operation = get;
  population = single_flight;
  fail_mode = fail_closed;
}

-- `LAST_CACHE_TIER`.
abbrev pub last_cache_tier : TierId
last_cache_tier = l5

unfoldable pub cache_ladder : List TierId
cache_ladder = l0 ∷ l1 ∷ l2 ∷ l3 ∷ l4 ∷ l5 ∷ []

unfoldable pub base_tier : CacheOperation → TierId → TierId
base_tier get current = current
base_tier set current = l1
base_tier remove current = l0
base_tier invalidate current = l0
base_tier refresh current = l0
base_tier exists current = l0
base_tier promote current = l0
base_tier demote current = l0

-- `==` on rungs.
abbrev pub same_tier : TierId → TierId → Bool
same_tier a b = as_usize a == as_usize b

-- The loop of `healthy_fallback`, by the rounds that are left.
unfoldable pub step_down : ℕ → ℕ → ℕ
unfolding as_usize
step_down zero idx = idx
step_down (suc rounds) idx =
    let rest = step_down rounds (idx + 1) in
    if leb (as_usize last_cache_tier) idx then idx else rest

unfoldable pub healthy_fallback : TierId → CacheState → TierId
unfolding is_circuit_open step_down from_usize as_usize
healthy_fallback start state =
    if not (is_circuit_open state.tier_health) || not (same_tier state.tier start)
    then start
    else Option.get_or (from_usize (step_down (as_usize last_cache_tier) (as_usize start)))
        last_cache_tier

unfoldable pub capacity_fallback : TierId → CacheState → TierId
unfolding from_usize as_usize
capacity_fallback start state =
    if not (same_tier state.tier start) || state.tier_health.has_availability
    then start
    else (let next = as_usize start + 1 in
        Option.get_or
          (from_usize
            (if leb next (as_usize last_cache_tier) then next else as_usize last_cache_tier))
          last_cache_tier)

-- `matches!(operation, Set | Refresh)`.
unfoldable pub writes : CacheOperation → Bool
writes set = true
writes refresh = true
writes _ = false

-- `DefaultPolicy::select`.
unfoldable pub default_select : CacheOperation → CacheState → PolicyDecision
unfolding allow base_tier healthy_fallback capacity_fallback writes
default_select operation state =
    let tier = healthy_fallback (base_tier operation state.tier) state in
    record (allow tier) {
      operation = operation;
      tier = if writes operation then capacity_fallback tier state else tier;
    }

unfoldable pub is_mutating : CacheOperation → Bool
is_mutating get = false
is_mutating exists = false
is_mutating _ = true

-- `StrictPolicy::select`, for an identity that is authenticated or not.
unfoldable pub strict_select : CacheOperation → CacheState → Bool → PolicyDecision
unfolding is_mutating deny default_select
strict_select operation state is_authenticated =
    if is_mutating operation && not is_authenticated then deny else default_select operation state
