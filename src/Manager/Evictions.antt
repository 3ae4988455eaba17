-- ===== src/Manager/Evictions.antt =====
-- The eviction of an entry of a rung in `src/manager.rs`, where `set` finds the rungs full.
use the_six.Base.{ℕ, zero, suc, Bool, true, false, not, List, [], ◌∷◌, if◌then◌else◌}
use the_six.Base.Result.{Result, ok, err}
use the_six.Tier.{TierId}
use the_six.Tier.Interface.{CacheTier}
use the_six.Integrity.{KeyAddress}
use the_six.Control.Cachelito.{reserve_eviction}
use the_six.Manager.{Task, option_case, result_case, pure, ◌>>=◌, attempt, gets, now_do}
use the_six.Manager.Rungs.{has_tier, on_rung, on_plane}

-- `matches!(removed, Ok(true))`.
unfoldable pub is_removed : Result Bool → Bool
is_removed (ok removed) = removed
is_removed (err _) = false

module _ {V S : Type 0} (T : CacheTier V S) where
  -- The last phase of `try_evict_at_rung`, once the plane has agreed.
  unfoldable pub take_slot : TierId → KeyAddress → ℕ → Task S (Bool × ℕ)
  unfolding attempt now_do on_rung is_removed pure ◌>>=◌
  take_slot rung address left = do
    removed ← attempt (now_do (on_rung rung (λ state _. T.remove_if_address state address)))
    pure (is_removed removed, left)

  -- `try_evict_at_rung`: whether a slot is free, and the attempts that are left.
  unfoldable pub evict_at_rung : TierId → ℕ → Task S (Bool × ℕ)
  unfolding pure now_do on_rung attempt on_plane reserve_eviction take_slot ◌>>=◌
  evict_at_rung rung zero = pure (false, zero)
  evict_at_rung rung (suc left) =
      let again = evict_at_rung rung left in
      do
        candidate ← now_do (
            on_rung rung (λ state now.
              ((T.eviction_candidate state now).0, ok ((T.eviction_candidate state now).1))))
        option_case candidate
            (λ address. do
              reserved ← attempt (now_do (on_plane (λ _ plane. reserve_eviction plane address)))
              result_case reserved
                  (λ granted. if granted then take_slot rung address left else again)
                  (λ _. pure (false, left)))
            (pure (false, left))

  -- `try_free_somewhere_in_the_ladder`: the rungs of the ladder share the attempts.
  unfoldable pub free_slot : List TierId → ℕ → Task S Bool
  unfolding pure gets has_tier evict_at_rung ◌>>=◌
  free_slot [] budget = pure false
  free_slot (rung ∷ rungs) budget =
      let next = free_slot rungs budget in
      do
        bound ← gets (λ s. has_tier s rung)
        if not bound then next else (do
          outcome ← evict_at_rung rung budget
          if outcome.0 then pure true else free_slot rungs outcome.1)
