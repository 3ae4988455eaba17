-- ===== src/Manager/Reads.antt =====
-- The reads of `src/manager.rs`: `get`, `exists`, and what they wait for.
use the_six.Base.{ℕ, Bool, true, false, not, ◌&&◌, Option, List, [], ◌∷◌, if◌then◌else◌}
use the_six.Base.Result.{CacheError, Result, ok, err, miss, tier_unavailable}
use the_six.Tier.{TierId, l0}
use the_six.Tier.Interface.{CacheTier}
use the_six.Tier.Registry.{is_tier_open}
use the_six.Entry.{EntryState, ready, stale, in_flight, prepared}
use the_six.Policy
use the_six.Policy.{CacheOperation, CacheState, PolicyDecision, cache_ladder}
use the_six.Telemetry
use the_six.Telemetry.{
  from_error, fell_back, begin_record, with_source, with_backend, with_fallback, with_failure,
  finish,
}
use the_six.Control.Cachelito.{peek, put_state}
use the_six.Control.Handlers.{ControlSnapshot, is_state}
use the_six.Manager.{
  Task, option_case, result_case, pure, raise, lift, ◌>>=◌, ◌>>◌, attempt, gets, now_do, bounded,
}
use the_six.Manager.Rungs.{
  CacheContext, is_authenticated, encode_key, check_auth, authorize, new_state, has_tier, on_rung,
  on_plane, emit, record_outcome, observed_control_only, backend_of, observed_read,
}

-- Whether `peek` shows an entry that nobody is populating or committing.
unfoldable pub is_settled : Result ControlSnapshot → Bool
unfolding is_state
is_settled (ok now) = not (is_state now.state in_flight) && not (is_state now.state prepared)
is_settled (err _) = false

-- Whether `peek` shows that the entry is no longer ready.
unfoldable pub is_left : Result ControlSnapshot → Bool
unfolding is_state
is_left (ok after) = not (is_state after.state ready)
is_left (err _) = false

abbrev pub is_ok : {A : Type 0} → Result A → Bool
is_ok (ok _) = true
is_ok (err _) = false

module _ {S : Type 0} where
  -- `cachelito.peek(key)`, which changes nothing.
  unfoldable pub observe : List ℕ → Task S ControlSnapshot
  unfolding gets lift ◌>>=◌ peek
  observe key = do r ← gets (λ s. peek s.plane s.now key); lift r

  -- `wait_for_population`: a look at the settled entry, and then the wait for a notification. Whether
  -- one comes is up to the other tasks.
  unfoldable pub wait_for_population : List ℕ → Task S (Unit {0})
  unfolding observe attempt bounded is_settled ◌>>=◌ pure
  wait_for_population key = do
    seen ← attempt (observe key)
    if is_settled seen then pure tt else bounded (λ s. (s, ok tt))

  -- A refusal that is recorded before it is returned.
  unfoldable pub refuse :
      {A : Type 0} → Telemetry.Operation → List ℕ → TierId → ℕ → CacheError → Task S A
  unfolding observed_control_only from_error raise ◌>>◌
  refuse op key tier started e = do
    observed_control_only op key tier started (from_error e)
    raise e

  -- `cachelito.set_state(key, Stale)`, whose result is dropped.
  unfoldable pub mark_stale : List ℕ → Task S (Result (Unit {0}))
  unfolding attempt now_do on_plane put_state
  mark_stale key = attempt (now_do (on_plane (λ _ plane. put_state plane key stale)))

module _ {V S : Type 0} (T : CacheTier V S) where
  -- The arm of `get` that reads a rung, and looks at the entry again after the await.
  unfoldable pub read_ready : List ℕ → ControlSnapshot → ℕ → Task S (Option V)
  unfolding gets refuse raise observed_read attempt record_outcome observe lift ◌>>=◌ ◌>>◌ is_left
      has_tier
  read_ready key snapshot started = do
    bound ← gets (λ s. has_tier s snapshot.tier)
    if not bound then refuse Telemetry.get key snapshot.tier started tier_unavailable else (do
      result ← attempt (observed_read T Telemetry.get key snapshot.tier)
      record_outcome snapshot.tier result
      after ← attempt (observe key)
      if is_ok result && is_left after then raise miss else lift result)

  -- The arm of `get` that joins a population or a commit of another caller.
  unfoldable pub read_settled : List ℕ → Task S (Option V)
  unfolding wait_for_population observe observed_read attempt record_outcome lift raise gets ◌>>=◌
      ◌>>◌ is_state has_tier
  read_settled key = do
    wait_for_population key
    after ← observe key
    bound ← gets (λ s. has_tier s after.tier)
    option_case after.last_error raise (
        if not (is_state after.state ready)
        then raise miss
        else if not bound
        then raise tier_unavailable
        else (do
          result ← attempt (observed_read T Telemetry.get key after.tier)
          record_outcome after.tier result
          lift result))

  -- The match of `get` on the state that it saw.
  unfoldable pub get_by : EntryState → List ℕ → ControlSnapshot → ℕ → Task S (Option V)
  unfolding read_ready read_settled mark_stale refuse ◌>>=◌
  get_by ready key snapshot started =
      if not snapshot.expired
      then read_ready key snapshot started
      else (do _ ← mark_stale key; refuse Telemetry.get key snapshot.tier started miss)
  get_by in_flight key snapshot started =
      if not snapshot.population_owner
      then read_settled key
      else refuse Telemetry.get key snapshot.tier started miss
  get_by prepared key snapshot started =
      if not snapshot.population_owner
      then read_settled key
      else refuse Telemetry.get key snapshot.tier started miss
  get_by _ key snapshot started = refuse Telemetry.get key snapshot.tier started miss

  -- `record_fallback`, and the copy that was found.
  unfoldable pub found_copy : List ℕ → CacheError → TierId → V → Task S V
  unfolding emit backend_of begin_record with_source with_backend with_fallback with_failure finish
      pure ◌>>◌
  found_copy key cause tier v = do
    emit (λ s. finish s.now s.now fell_back (
        with_failure cause (
          with_fallback true (
            with_backend (backend_of T s tier)
              (with_source tier (begin_record Telemetry.get_or_fetch key))))))
    pure v

  -- `try_fallback_tier`: the scan of the ladder for a copy.
  unfoldable pub scan_fallback : List ℕ → CacheError → List TierId → Task S V
  unfolding raise gets attempt bounded on_rung found_copy has_tier is_tier_open ◌>>=◌
  scan_fallback key cause [] = raise cause
  scan_fallback key cause (tier ∷ tiers) =
      let rest = scan_fallback key cause tiers in
      do
        usable ← gets (λ s. has_tier s tier && not (is_tier_open s.registry tier))
        if not usable then rest else (do
          result ← attempt (bounded (on_rung tier (λ rung now. T.get rung now key)))
          result_case result (λ copy. option_case copy (λ v. found_copy key cause tier v) rest)
              (λ _. rest))

  unfoldable pub try_fallback_tier : List ℕ → CacheContext → CacheError → Task S V
  unfolding lift encode_key scan_fallback cache_ladder ◌>>=◌
  try_fallback_tier key ctx cause = do
    framed ← lift (encode_key key ctx)
    scan_fallback framed cause cache_ladder

  module _ (select : CacheOperation → CacheState → Bool → PolicyDecision) where
    -- `resolve`, of a fresh state.
    unfoldable pub resolve : CacheOperation → CacheContext → PolicyDecision
    unfolding new_state is_authenticated
    resolve operation ctx = select operation new_state (is_authenticated ctx)

    unfoldable pub get : List ℕ → CacheContext → Task S (Option V)
    unfolding gets lift encode_key check_auth refuse resolve authorize observe get_by ◌>>=◌
    get key ctx = do
      started ← gets (λ s. s.now)
      framed ← lift (encode_key key ctx)
      let decision = resolve Policy.get ctx
      result_case (check_auth ctx)
          (λ _.
            result_case (authorize decision)
              (λ _. do snapshot ← observe framed; get_by snapshot.state framed snapshot started)
              (λ e. refuse Telemetry.get framed decision.tier started e))
          (λ e. refuse Telemetry.get framed l0 started e)

    -- `check_auth`, and the decision that `authorize` lets pass.
    unfoldable pub admit : CacheOperation → CacheContext → Task S PolicyDecision
    unfolding lift check_auth resolve authorize pure ◌>>=◌ ◌>>◌
    admit operation ctx = do
      lift (check_auth ctx)
      lift (authorize (resolve operation ctx))
      pure (resolve operation ctx)

    unfoldable pub exists : List ℕ → CacheContext → Task S Bool
    unfolding admit lift encode_key observe gets pure bounded on_rung is_state has_tier ◌>>=◌
    exists key ctx = do
      _ ← admit Policy.exists ctx
      framed ← lift (encode_key key ctx)
      snapshot ← observe framed
      bound ← gets (λ s. has_tier s snapshot.tier)
      if not (is_state snapshot.state ready)
          then pure false
          else if not bound
          then pure false
          else bounded (on_rung snapshot.tier (λ rung now. T.contains rung now framed))
