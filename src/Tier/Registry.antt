-- ===== src/Tier/Registry.antt =====
-- `TierRegistry` of `src/tier/mod.rs`: the health of every rung, and the circuit breaker on it. Of a
-- `TierHealth` the count of failures is modelled; its score and its time are not read by the registry.
pub mod Circuit
use the_six.Base.{
  ℕ, ◌+◌, Bool, Option, none, some, List, [], ◌∷◌, ◌==◌, leb, get_or, set, replicate, if◌then◌else◌,
}
use the_six.Tier.{TierId, all, as_usize}

pub record TierRegistry : Type 0 where
  pub tiers : List TierId
  pub failures : List ℕ

-- `TierRegistry::new`: one count for each rung.
unfoldable pub new_registry : TierRegistry
new_registry = record { tiers = all; failures = replicate 7 0 }

-- `tier_health(tier).consecutive_failures`.
unfoldable pub failures_of : TierRegistry → TierId → ℕ
unfolding as_usize
failures_of r tier = get_or r.failures (as_usize tier) 0

unfoldable pub fail : TierRegistry → TierId → TierRegistry
unfolding failures_of as_usize
fail r tier = record r { failures = set r.failures (as_usize tier) (failures_of r tier + 1) }

unfoldable pub recover : TierRegistry → TierId → TierRegistry
unfolding as_usize
recover r tier = record r { failures = set r.failures (as_usize tier) 0 }

unfoldable pub is_tier_open : TierRegistry → TierId → Bool
unfolding failures_of
is_tier_open r tier = leb 5 (failures_of r tier)

-- The loop of `try_fallback_tier`.
unfoldable pub scan_fallback : TierRegistry → TierId → List TierId → Option TierId
unfolding is_tier_open as_usize
scan_fallback r exclude [] = none
scan_fallback r exclude (tier ∷ tiers) =
    let rest = scan_fallback r exclude tiers in
    if as_usize tier == as_usize exclude
    then rest
    else if is_tier_open r tier
    then rest
    else some tier

unfoldable pub try_fallback_tier : TierRegistry → TierId → Option TierId
unfolding scan_fallback
try_fallback_tier r exclude = scan_fallback r exclude r.tiers
