-- ===== src/Policy/Routes.antt =====
-- Where the policies of `src/policy.rs` route a request, and whom they authorize.
use the_six.Base.{◌≡◌, ◌⊎◌, true, ◌&&◌, arith, if◌then◌else◌}
use the_six.Tier.{TierId, l0, l1, l2, l3, l4, l5, l6, is_cache_rung}
use the_six.Policy.{
  CacheOperation, get, CacheState, is_circuit_open, base_tier, healthy_fallback, capacity_fallback,
  default_select, same_tier,
}

healthy_fallback_lem :
    (start : TierId) (state : CacheState)
    → healthy_fallback start state ≡ (
        if is_circuit_open state.tier_health && same_tier state.tier start && is_cache_rung start
        then l5
        else start)
unfolding healthy_fallback is_cache_rung
healthy_fallback_lem l0 state = ground arith
healthy_fallback_lem l1 state = ground arith
healthy_fallback_lem l2 state = ground arith
healthy_fallback_lem l3 state = ground arith
healthy_fallback_lem l4 state = ground arith
healthy_fallback_lem l5 state = ground arith
healthy_fallback_lem l6 state = ground arith

capacity_fallback_lem :
    (start : TierId) (state : CacheState)
    → is_cache_rung (capacity_fallback start state) ≡ true ⊎ capacity_fallback start state ≡ start
unfolding capacity_fallback is_cache_rung
capacity_fallback_lem start state = ground arith

base_tier_lem :
    (operation : CacheOperation) (current : TierId)
    → (is_cache_rung (base_tier operation current) ≡ true)
      ⊎ ((operation ≡ get) × (current ≡ l6) × (base_tier operation current ≡ l6))
unfolding base_tier is_cache_rung
base_tier_lem operation current = ground arith

-- A request is routed to the authority rung only where it reads an entry that lies there; every
-- other request goes to a rung of the cache ladder.
pub default_select-is_cache_rung :
    (operation : CacheOperation) (state : CacheState)
    → (is_cache_rung (default_select operation state).tier ≡ true)
      ⊎ ((operation ≡ get) × (state.tier ≡ l6) × ((default_select operation state).tier ≡ l6))
unfolding default_select is_cache_rung
default_select-is_cache_rung operation state =
    let base = base_tier operation state.tier in
    let health = healthy_fallback_lem base state in
    ground (
      arith,
      base_tier_lem operation state.tier,
      capacity_fallback_lem (healthy_fallback base state) state,
    )

-- A read of an entry on a rung of the ladder stays on its rung while the rung's circuit is closed,
-- and goes to the last rung of the ladder once the circuit is open.
pub default_select-get :
    (state : CacheState)
    → is_cache_rung state.tier ≡ true
    → (default_select get state).tier
      ≡ (if is_circuit_open state.tier_health then l5 else state.tier)
unfolding default_select is_circuit_open
default_select-get state h = ground (arith, healthy_fallback_lem state.tier state)
