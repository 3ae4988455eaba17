-- ===== src/Manager/Rungs/Nearest.antt =====
-- The rung that `nearest_bound_rung` of `src/manager.rs` chooses.
use the_six.Base.{◌≡◌, ◌≤◌, ◌↔◌, ◌⊎◌, true, none, some, arith, length}
use the_six.Tier.{TierId, as_usize, from_index, from_usize, is_cache_rung, is_authority_rung}
use the_six.Manager.{Shared}
use the_six.Manager.Rungs.{has_tier, scan_bound, nearest_bound_rung}

module _ {S : Type 0} (s : Shared S) where
  -- The rung that is found is bound, it is a cache rung, it is not outward of the rung that is wanted,
  -- and no bound rung `other` that is not outward of the wanted one is outward of it.
  pub nearest_bound_rung-is_nearest :
      (wanted tier other : TierId)
      → nearest_bound_rung s wanted ≡ some tier
      → has_tier s other ≡ true
      → as_usize other ≤ as_usize wanted
      → (has_tier s tier ≡ true)
        × (is_cache_rung tier ≡ true)
        × (as_usize tier ≤ as_usize wanted)
        × (as_usize other ≤ as_usize tier)
  unfolding nearest_bound_rung scan_bound from_index from_usize has_tier as_usize is_cache_rung
  nearest_bound_rung-is_nearest wanted tier other h ho le = ground arith

  -- A rung is found unless the authority is wanted or no rung is bound.
  nearest_bound_rung-eq-none :
      (wanted : TierId)
      → (nearest_bound_rung s wanted ≡ none)
        ↔ ((is_authority_rung wanted ≡ true) ⊎ (length s.rungs ≡ 0))
  unfolding nearest_bound_rung scan_bound from_index from_usize has_tier as_usize is_cache_rung
      is_authority_rung
  nearest_bound_rung-eq-none wanted = ground arith

  pub nearest_bound_rung-is_cache_rung :
      (wanted tier : TierId) → nearest_bound_rung s wanted ≡ some tier → is_cache_rung tier ≡ true
  unfolding nearest_bound_rung scan_bound from_index from_usize has_tier as_usize is_cache_rung
  nearest_bound_rung-is_cache_rung wanted tier h = ground arith
