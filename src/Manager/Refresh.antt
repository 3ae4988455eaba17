-- ===== src/Manager/Refresh.antt =====
-- `refresh_detailed` and `refresh` of `src/manager.rs`.
use the_six.Base.{ℕ, Bool, not, ◌&&◌, Option, none, some, List, if◌then◌else◌}
use the_six.Base.Result.{Result, ok, err}
use the_six.Tier.Interface.{CacheTier}
use the_six.Entry.{ready, is_readable}
use the_six.Policy
use the_six.Policy.{CacheOperation, CacheState, PolicyDecision, fail_closed}
use the_six.Telemetry
use the_six.Telemetry.{fell_back, begin_record, with_source, with_generation, with_failure, finish}
use the_six.Control.Handlers.{ControlSnapshot, is_state}
use the_six.Manager.{Task, result_case, pure, raise, ◌>>=◌, ◌>>◌, attempt, gets, bounded}
use the_six.Manager.Rungs.{CacheContext, has_tier, on_rung, emit}
use the_six.Manager.Reads.{observe, mark_stale}
use the_six.Manager.Populate.{claim, admit_framed, become_population_owner}

pub data Freshness : Type 0 where
  fresh out_of_date : Freshness

-- `Lookup<V>`.
pub record Lookup (V : Type 0) : Type 0 where
  pub value : Option V
  pub freshness : Freshness

module _ {V S : Type 0} (T : CacheTier V S) (fetch : ℕ → Result V) where
  module _ (select : CacheOperation → CacheState → Bool → PolicyDecision) where
    -- The value that `refresh_detailed` falls back to.
    unfoldable pub current_value : List ℕ → ControlSnapshot → Task S (Option V)
    unfolding is_readable pure gets has_tier attempt bounded on_rung ◌>>=◌
    current_value framed before = if not (is_readable before.state) then pure none else (do
      bound ← gets (λ s. has_tier s before.tier)
      if not bound then pure none else (do
        result ← attempt (bounded (on_rung before.tier (λ rung now. T.get rung now framed)))
        result_case result pure (λ _. pure none)))

    -- The match of `refresh_detailed` on its population.
    unfoldable pub after_refresh :
        List ℕ → ControlSnapshot → Option V → Result V → Task S (Lookup V)
    unfolding pure emit begin_record with_source with_generation with_failure finish raise ◌>>◌
    after_refresh framed snapshot current (ok v) =
        pure (record { value = some v; freshness = fresh })
    after_refresh framed snapshot none (err e) = raise e
    after_refresh framed snapshot (some v) (err e) = do
      emit (λ s. finish s.now s.now fell_back (
          with_failure e (
            with_generation snapshot.generation
              (with_source snapshot.tier (begin_record Telemetry.refresh framed)))))
      pure (record { value = some v; freshness = out_of_date })

    -- `refresh_detailed`; its decision fails closed.
    unfoldable pub refresh_detailed : List ℕ → CacheContext → Task S (Lookup V)
    unfolding admit_framed observe current_value is_state mark_stale claim pure attempt
        become_population_owner after_refresh ◌>>=◌
    refresh_detailed key ctx = do
      (framed, decision) ← admit_framed T fetch select Policy.refresh key ctx
      before ← observe framed
      current ← current_value framed before
      _ ←
          (if is_state before.state ready && not before.expired
            then mark_stale framed
            else pure (ok tt))
      snapshot ← claim framed decision.tier
      if not snapshot.population_owner
          then pure (record { value = current; freshness = out_of_date })
          else (do
            outcome ← attempt (
                become_population_owner T fetch key framed snapshot.generation ctx
                  (record decision { fail_mode = fail_closed }))
            after_refresh framed snapshot current outcome)

    unfoldable pub refresh : List ℕ → CacheContext → Task S (Option V)
    unfolding refresh_detailed pure ◌>>=◌
    refresh key ctx = do found ← refresh_detailed key ctx; pure found.value
