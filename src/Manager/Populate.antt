-- ===== src/Manager/Populate.antt =====
-- Population in `src/manager.rs`: `get_or_fetch`, `refresh_detailed`, and the retries of a fetch. The
-- caller's fetch is a parameter, by the number of the attempt; what it does to the shared state is done
-- before or after its await.
use the_six.Base.{
  ℕ, zero, suc, ◌+◌, Bool, true, false, not, ◌&&◌, Option, none, List, if◌then◌else◌,
}
use the_six.Base.Result.{
  CacheError, Result, ok, err, tier_unavailable, miss, timeout, population_failed, stale_generation,
  cancelled,
}
use the_six.Tier.{TierId}
use the_six.Tier.Interface.{CacheTier}
use the_six.Entry.{EntryState, ready, in_flight, prepared, is_readable}
use the_six.Policy
use the_six.Policy.{CacheOperation, CacheState, PolicyDecision, FailMode, fail_open, fail_closed}
use the_six.Telemetry
use the_six.Telemetry.{
  from_error, begin_record, with_destination, with_backend, with_failure, finish,
}
use the_six.Control.Cachelito.{acquire, publish, fail_with_error}
use the_six.Control.Handlers.{ControlSnapshot, is_state}
use the_six.Manager.{
  Shared, Task, option_case, result_case, pure, raise, lift, ◌>>=◌, ◌>>◌, attempt, guarded, gets,
  now_do, bounded, unbounded,
}
use the_six.Manager.Rungs.{
  CacheContext, check_auth, authorize, encode_key, has_tier, nearest_bound_rung, on_plane, emit,
  record_outcome, backend_of, observed_read, observed_write,
}
use the_six.Manager.Reads.{observe, wait_for_population, mark_stale, try_fallback_tier, resolve}

-- `MAX_POPULATE_ATTEMPTS` and `MAX_POPULATION_ATTEMPTS`.
abbrev pub max_populate_attempts : ℕ
max_populate_attempts = 3

abbrev pub max_population_attempts : ℕ
max_population_attempts = 8

unfoldable pub is_retryable : CacheError → Bool
is_retryable tier_unavailable = true
is_retryable timeout = true
is_retryable population_failed = true
is_retryable _ = false

unfoldable pub is_stale_generation : CacheError → Bool
is_stale_generation stale_generation = true
is_stale_generation _ = false

unfoldable pub is_open : FailMode → Bool
is_open fail_open = true
is_open fail_closed = false

module _ {S : Type 0} where
  -- The drop of an armed `PopulationGuard`.
  unfoldable pub drop_claim : List ℕ → Shared S → Shared S
  unfolding on_plane fail_with_error
  drop_claim key s = (on_plane (λ _ plane. fail_with_error plane key cancelled) s).0

  unfoldable pub claim : List ℕ → TierId → Task S ControlSnapshot
  unfolding now_do on_plane acquire
  claim key tier = now_do (on_plane (λ now plane. acquire plane now key tier))

module _ {V S : Type 0} (T : CacheTier V S) where
  -- `wait_and_get`.
  unfoldable pub wait_and_get : List ℕ → CacheContext → Task S V
  unfolding lift encode_key wait_for_population observe raise is_readable gets has_tier
      observed_read pure ◌>>=◌ ◌>>◌
  wait_and_get key ctx = do
    framed ← lift (encode_key key ctx)
    wait_for_population framed
    after ← observe framed
    bound ← gets (λ s. has_tier s after.tier)
    option_case after.last_error raise (
        if not (is_readable after.state)
        then raise miss
        else if not bound
        then raise tier_unavailable
        else (do
          copy ← observed_read T Telemetry.get_or_fetch framed after.tier
          option_case copy pure (raise miss)))

  module _ (fetch : ℕ → Result V) where
    -- The end of `populate_once`, on the rung that it chose.
    unfoldable pub store_value : List ℕ → ℕ → TierId → V → Option ℕ → Task S V
    unfolding gets has_tier raise attempt observed_write record_outcome lift now_do on_plane publish
        pure ◌>>=◌ ◌>>◌
    store_value key generation tier value ttl = do
      bound ← gets (λ s. has_tier s tier)
      if not bound then raise tier_unavailable else (do
        stored ← attempt (observed_write T Telemetry.get_or_fetch key tier value ttl)
        record_outcome tier stored
        lift stored
        now_do (on_plane (λ now plane. publish plane now key generation tier ttl))
        pure value)

    -- `populate_once`, for the framed key, which is encoded again for the same context.
    unfoldable pub populate_once : ℕ → List ℕ → ℕ → TierId → Option ℕ → Task S V
    unfolding bounded gets nearest_bound_rung raise store_value ◌>>=◌
    populate_once attempts key generation wanted ttl = do
      value ← bounded (λ s. (s, fetch attempts))
      nearest ← gets (λ s. nearest_bound_rung s wanted)
      option_case nearest (λ tier. store_value key generation tier value ttl)
          (raise tier_unavailable)

    -- The end of a population that failed: it is recorded, and the claim is released.
    unfoldable pub fail_population : List ℕ → TierId → CacheError → Task S (Result V)
    unfolding emit backend_of begin_record with_destination with_backend with_failure finish
        from_error attempt now_do on_plane fail_with_error pure ◌>>=◌ ◌>>◌
    fail_population key tier e = do
      emit (λ s. finish s.now s.now (from_error e) (
          with_failure e (
            with_backend (backend_of T s tier)
              (with_destination tier (begin_record Telemetry.get_or_fetch key)))))
      _ ← attempt (now_do (on_plane (λ _ plane. fail_with_error plane key e)))
      pure (err e)

    -- The loop of `become_population_owner`, by the attempts that may follow.
    unfoldable pub populate : ℕ → ℕ → List ℕ → ℕ → TierId → Option ℕ → Task S (Result V)
    unfolding attempt populate_once pure fail_population is_retryable unbounded ◌>>=◌ ◌>>◌
    populate zero attempts key generation tier ttl = do
      outcome ← attempt (populate_once attempts key generation tier ttl)
      result_case outcome (λ v. pure (ok v)) (λ e. fail_population key tier e)
    populate (suc left) attempts key generation tier ttl =
        let again = populate left (attempts + 1) key generation tier ttl in
        do
          outcome ← attempt (populate_once attempts key generation tier ttl)
          result_case outcome (λ v. pure (ok v))
              (λ e.
                if is_retryable e
                then unbounded (λ s. (s, ok tt)) >> again
                else fail_population key tier e)

    unfoldable pub become_population_owner :
        List ℕ → List ℕ → ℕ → CacheContext → PolicyDecision → Task S V
    unfolding guarded drop_claim populate pure raise is_stale_generation is_open try_fallback_tier
        ◌>>=◌
    become_population_owner key framed generation ctx decision = do
      outcome ← guarded (drop_claim framed) (populate 2 1 framed generation decision.tier ctx.ttl)
      result_case outcome pure (λ e.
          if is_stale_generation e
          then raise stale_generation
          else if is_open decision.fail_mode
          then try_fallback_tier T key ctx e
          else raise e)

    -- What `get_or_fetch` does by the state of its snapshot; `again` is the next round of its loop.
    unfoldable pub join_by :
        EntryState
        → Task S V
        → List ℕ
        → List ℕ
        → CacheContext
        → PolicyDecision
        → ControlSnapshot
        → Task S V
    unfolding wait_and_get wait_for_population become_population_owner ◌>>◌
    join_by in_flight again key framed ctx decision snapshot =
        if not snapshot.population_owner
        then wait_and_get key ctx
        else become_population_owner key framed snapshot.generation ctx decision
    join_by prepared again key framed ctx decision snapshot =
        if snapshot.population_owner
        then wait_for_population framed >> again
        else wait_and_get key ctx
    join_by _ again key framed ctx decision snapshot =
        become_population_owner key framed snapshot.generation ctx decision

    -- The fast path of `get_or_fetch`: a committed value that has not expired.
    unfoldable pub read_committed : List ℕ → ControlSnapshot → Task S (Option V)
    unfolding is_state pure gets has_tier raise observed_read ◌>>=◌
    read_committed framed snapshot =
        if not (is_state snapshot.state ready && not snapshot.expired) then pure none else (do
          bound ← gets (λ s. has_tier s snapshot.tier)
          if not bound
              then raise tier_unavailable
              else observed_read T Telemetry.get_or_fetch framed snapshot.tier)

    -- A ready entry that has expired is made stale and claimed again.
    unfoldable pub reclaim : List ℕ → TierId → ControlSnapshot → Task S ControlSnapshot
    unfolding is_state mark_stale claim pure ◌>>=◌
    reclaim framed tier snapshot =
        if is_state snapshot.state ready && snapshot.expired
        then (do _ ← mark_stale framed; claim framed tier)
        else pure snapshot

    -- The loop of `get_or_fetch`, by the rounds that are left.
    unfoldable pub fetch_loop : ℕ → List ℕ → List ℕ → CacheContext → PolicyDecision → Task S V
    unfolding raise claim reclaim read_committed join_by pure ◌>>=◌
    fetch_loop zero key framed ctx decision = raise timeout
    fetch_loop (suc left) key framed ctx decision =
        let again = fetch_loop left key framed ctx decision in
        do
          first ← claim framed decision.tier
          snapshot ← reclaim framed decision.tier first
          committed ← read_committed framed snapshot
          option_case committed pure (join_by snapshot.state again key framed ctx decision snapshot)

    module _ (select : CacheOperation → CacheState → Bool → PolicyDecision) where
      -- The gates of both, which encode the key between them.
      unfoldable pub admit_framed :
          CacheOperation → List ℕ → CacheContext → Task S (List ℕ × PolicyDecision)
      unfolding lift check_auth encode_key authorize resolve pure ◌>>=◌ ◌>>◌
      admit_framed operation key ctx = do
        lift (check_auth ctx)
        framed ← lift (encode_key key ctx)
        lift (authorize (resolve T select operation ctx))
        pure (framed, resolve T select operation ctx)

      unfoldable pub get_or_fetch : List ℕ → CacheContext → Task S V
      unfolding admit_framed fetch_loop ◌>>=◌
      get_or_fetch key ctx = do
        (framed, decision) ← admit_framed Policy.get key ctx
        fetch_loop max_population_attempts key framed ctx decision
