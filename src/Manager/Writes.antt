-- ===== src/Manager/Writes.antt =====
-- `set` of `src/manager.rs`: the walk of a write over the rungs, its races, and the eviction that makes
-- room for it.
use the_six.Base.{
  ℕ, zero, suc, Bool, true, false, not, Option, none, List, [], ◌∷◌, ◌==◌, if◌then◌else◌,
}
use the_six.Base.Result.{
  CacheError, Result, ok, err, tier_unavailable, write_indeterminate, policy_denied, timeout,
  cancelled, stale_generation, write_contended, serialization_failed, capacity_exhausted, corrupted,
}
use the_six.Tier.{TierId, l0, l1, l2, l3, l4, l5, l6, as_usize}
use the_six.Tier.Interface.{CacheTier}
use the_six.Tier.Registry.{failures_of}
use the_six.Entry.{write, CommitToken}
use the_six.Policy
use the_six.Policy.{CacheOperation, CacheState, PolicyDecision, cache_ladder}
use the_six.Telemetry
use the_six.Control.Cachelito.{prepare, commit, abort, abort_proven_clean}
use the_six.Manager.{
  Shared, Task, pure, raise, lift, ◌>>=◌, ◌>>◌, attempt, guarded, gets, now_do, bounded, unbounded,
}
use the_six.Manager.Rungs.{
  CacheContext, is_authenticated, encode_key, check_auth, authorize, from_snapshot, has_tier,
  on_rung, on_plane, record_outcome, write_provably_stored_nothing, observed_write,
}
use the_six.Manager.Reads.{observe}
use the_six.Manager.Evictions.{free_slot}

-- How a write on one rung ended: for good, refused by the rung, or by a lost race.
pub data Verdict : Type 0 where
  finished : Result (Unit {0}) → Verdict
  refused : CacheError → Verdict
  lost : Verdict

abbrev pub verdict_case :
    {B : Type 0} → Verdict → (Result (Unit {0}) → B) → (CacheError → B) → B → B
verdict_case (finished r) f g b = f r
verdict_case (refused e) f g b = g e
verdict_case lost f g b = b

-- The errors for which `set` goes on to the next rung.
unfoldable pub forces_walk : CacheError → Bool
forces_walk capacity_exhausted = true
forces_walk tier_unavailable = true
forces_walk timeout = true
forces_walk corrupted = true
forces_walk serialization_failed = true
forces_walk write_indeterminate = true
forces_walk _ = false

-- The bounds of `set`: `MAX_COMMIT_ATTEMPTS`, `MAX_EVICTION_PASSES` and `MAX_EVICTION_ATTEMPTS`.
abbrev pub max_commit_attempts : ℕ
max_commit_attempts = 64

abbrev pub max_eviction_passes : ℕ
max_eviction_passes = 16

abbrev pub max_eviction_attempts : ℕ
max_eviction_attempts = 8

unfoldable pub is_capacity_exhausted : CacheError → Bool
is_capacity_exhausted capacity_exhausted = true
is_capacity_exhausted _ = false

-- The rungs that `while rung.is_cache_rung()` visits, by `previous_rung`.
unfoldable pub descent : TierId → List TierId
descent l0 = l0 ∷ []
descent l1 = l1 ∷ l0 ∷ []
descent l2 = l2 ∷ l1 ∷ l0 ∷ []
descent l3 = l3 ∷ l2 ∷ l1 ∷ l0 ∷ []
descent l4 = l4 ∷ l3 ∷ l2 ∷ l1 ∷ l0 ∷ []
descent l5 = l5 ∷ l4 ∷ l3 ∷ l2 ∷ l1 ∷ l0 ∷ []
descent l6 = []

module _ {S : Type 0} where
  -- The drop of an armed `IntentGuard`.
  unfoldable pub drop_guard : CommitToken → Shared S → Shared S
  unfolding on_plane abort
  drop_guard token s = (on_plane (λ _ plane. abort plane token cancelled) s).0

  -- `IntentGuard::abort` and `IntentGuard::abort_proven_clean`, for an error of the rung.
  unfoldable pub abort_intent : CommitToken → CacheError → Task S (Result (Unit {0}))
  unfolding attempt now_do on_plane abort abort_proven_clean write_provably_stored_nothing
  abort_intent token e = attempt (
      now_do (
        on_plane (λ _ plane.
          if write_provably_stored_nothing e
          then abort_proven_clean plane token e
          else abort plane token e)))

  -- `IntentGuard::abort`, whatever the error.
  unfoldable pub abort_plainly : CommitToken → CacheError → Task S (Result (Unit {0}))
  unfolding attempt now_do on_plane abort
  abort_plainly token e = attempt (now_do (on_plane (λ _ plane. abort plane token e)))

  -- The end of an attempt that lost its race. The guard is armed while the task yields, and it is
  -- dropped on the way out.
  unfoldable pub lose : Bool → CommitToken → Task S Verdict
  unfolding now_do drop_guard unbounded pure ◌>>◌
  lose true token = do
    now_do (λ s. (drop_guard token s, ok tt))
    pure (finished (err write_contended))
  lose false token = do
    unbounded (λ s. (s, ok tt))
    now_do (λ s. (drop_guard token s, ok tt))
    pure lost

module _ {V S : Type 0} (T : CacheTier V S) where
  unfoldable pub remove_from : TierId → List ℕ → Shared S → Shared S × Result (Unit {0})
  unfolding on_rung
  remove_from rung key = on_rung rung (λ state now. T.remove state now key)

  -- The match on what `commit` returned. `last` says that this loss is one too many.
  unfoldable pub after_commit :
      Bool → TierId → List ℕ → CommitToken → Result (Unit {0}) → Task S Verdict
  unfolding pure lose attempt unbounded abort_plainly ◌>>=◌ remove_from
  after_commit last rung key token (ok _) = pure (finished (ok tt))
  after_commit last rung key token (err stale_generation) = lose last token
  after_commit last rung key token (err e) = do
    _ ← attempt (unbounded (remove_from rung key))
    _ ← abort_plainly token e
    pure (finished (err e))

  -- The removal after a write whose outcome the rung does not know.
  unfoldable pub clear_residue : TierId → List ℕ → Result (Unit {0}) → Task S (Result (Unit {0}))
  unfolding attempt bounded pure remove_from
  clear_residue rung key (err write_indeterminate) = attempt (bounded (remove_from rung key))
  clear_residue rung key result = pure result

  -- The match on what the rung returned.
  unfoldable pub after_write :
      Bool → TierId → List ℕ → Option ℕ → CommitToken → Result (Unit {0}) → Task S Verdict
  unfolding attempt now_do on_plane commit after_commit abort_intent forces_walk pure ◌>>=◌
  after_write last rung key ttl token (ok _) = do
    committed ← attempt (now_do (on_plane (λ now plane. commit plane now token ttl)))
    after_commit last rung key token committed
  after_write last rung key ttl token (err e) = do
    _ ← abort_intent token e
    pure (if forces_walk e then refused e else finished (err e))

  -- What one round of the loop of `set` does while its guard is armed: the write and the commit.
  unfoldable pub write_guarded :
      Bool → TierId → List ℕ → V → Option ℕ → CommitToken → Task S Verdict
  unfolding attempt observed_write record_outcome clear_residue after_write ◌>>=◌ ◌>>◌
  write_guarded last rung key value ttl token = do
    result ← attempt (observed_write T Telemetry.set key rung value ttl)
    record_outcome rung result
    _ ← clear_residue rung key result
    after_write last rung key ttl token result

  -- One round of the loop of `set` on a rung: the intent, and what its guard covers.
  unfoldable pub write_once : Bool → TierId → List ℕ → V → Option ℕ → Task S Verdict
  unfolding now_do on_plane prepare guarded drop_guard write_guarded ◌>>=◌
  write_once last rung key value ttl = do
    token ← now_do (on_plane (λ now plane. prepare plane now key none rung write))
    guarded (drop_guard token) (write_guarded last rung key value ttl token)

  -- The loop, by the races that may still be lost.
  unfoldable pub race : ℕ → TierId → List ℕ → V → Option ℕ → Task S Verdict
  unfolding write_once ◌>>=◌ pure
  race zero rung key value ttl = write_once true rung key value ttl
  race (suc left) rung key value ttl = do
    verdict ← write_once false rung key value ttl
    verdict_case verdict (λ r. pure (finished r)) (λ e. pure (refused e))
        (race left rung key value ttl)

  -- The walk over the rungs: `finished`, or the last refusal.
  unfoldable pub walk : List TierId → CacheError → List ℕ → V → Option ℕ → Task S Verdict
  unfolding pure gets has_tier race ◌>>=◌
  walk [] last_error key value ttl = pure (refused last_error)
  walk (rung ∷ rungs) last_error key value ttl =
      let next = walk rungs last_error key value ttl in
      do
        bound ← gets (λ s. has_tier s rung)
        if not bound then next else (do
          verdict ← race 63 rung key value ttl
          verdict_case verdict (λ r. pure (finished r)) (λ e. walk rungs e key value ttl) next)

  -- One pass of `set`: a walk, and what follows where an eviction made room.
  unfoldable pub pass :
      (CacheError → Task S (Unit {0}))
      → TierId
      → CacheError
      → List ℕ
      → V
      → Option ℕ
      → Task S (Unit {0})
  unfolding walk descent lift raise free_slot is_capacity_exhausted cache_ladder ◌>>=◌
  pass again rung last_error key value ttl = do
    verdict ← walk (descent rung) last_error key value ttl
    verdict_case verdict lift
        (λ e. if not (is_capacity_exhausted e) then raise e else (do
          freed ← free_slot T cache_ladder max_eviction_attempts
          if freed then again e else raise e))
        (raise last_error)

  -- The passes, by those that may follow.
  unfoldable pub passes : ℕ → TierId → CacheError → List ℕ → V → Option ℕ → Task S (Unit {0})
  unfolding pass raise
  passes zero rung last_error key value ttl = pass (λ e. raise e) rung last_error key value ttl
  passes (suc left) rung last_error key value ttl =
      pass (λ e. passes left rung e key value ttl) rung last_error key value ttl

  -- The rest of `set`, once the policy has decided.
  unfoldable pub write_by : TierId → PolicyDecision → List ℕ → V → Option ℕ → Task S (Unit {0})
  unfolding lift authorize raise passes as_usize ◌>>◌
  write_by authority decision framed value ttl = do
    lift (authorize decision)
    if as_usize decision.tier == as_usize authority
        then raise policy_denied
        else passes max_eviction_passes decision.tier tier_unavailable framed value ttl

  unfoldable pub set :
      (CacheOperation → CacheState → Bool → PolicyDecision)
      → TierId
      → List ℕ
      → V
      → CacheContext
      → Task S (Unit {0})
  unfolding lift check_auth encode_key observe gets failures_of from_snapshot is_authenticated
      write_by ◌>>=◌ ◌>>◌
  set select authority key value ctx = do
    lift (check_auth ctx)
    framed ← lift (encode_key key ctx)
    snapshot ← observe framed
    failures ← gets (λ s. failures_of s.registry snapshot.tier)
    let decision = select Policy.set (from_snapshot snapshot failures) (is_authenticated ctx)
    write_by authority decision framed value ctx.ttl
