-- ===== src/Manager/Maintains/Populate.antt =====
-- Population keeps what is stable, whatever the fetch returns.
use the_six.Base.{
  ℕ, zero, suc, ◌+◌, ◌≡◌, Bool, true, not, ◌&&◌, Option, none, some, List, Option-cases, inl, inr,
}
use the_six.Base.Result.{CacheError, Result, ok, err, tier_unavailable}
use the_six.Tier.{TierId, is_cache_rung}
use the_six.Tier.Interface.{CacheTier}
use the_six.Entry.{EntryState, absent, ready, stale, in_flight, prepared, failed}
use the_six.Policy
use the_six.Policy.{CacheOperation, CacheState, PolicyDecision, fail_closed}
use the_six.Telemetry
use the_six.Control.Handlers.{ControlSnapshot, is_state}
use the_six.Manager.{Shared, Task, raise, option_case}
use the_six.Manager.Rungs.{CacheContext, has_tier, nearest_bound_rung}
use the_six.Manager.Rungs.Nearest.{nearest_bound_rung-is_cache_rung}
use the_six.Manager.Populate.{
  wait_and_get, store_value, populate_once, fail_population, populate, become_population_owner,
  join_by, read_committed, reclaim, fetch_loop, admit_framed, get_or_fetch, drop_claim,
  is_retryable,
}
use the_six.Manager.Refresh.{current_value, after_refresh, refresh_detailed, refresh}
use the_six.Manager.Maintains.{
  Stable, Maintains, Maintains-attempt, Maintains-guarded, Maintains-pure, Maintains-raise,
  Maintains-lift, Maintains-gets, Maintains-gets_bind, Maintains-if, Maintains-option_case,
  Maintains-result_case, Maintains-bind, Maintains-then, maintains_rules,
}
use the_six.Manager.Maintains.Primitives.{
  Maintains-sleep, Maintains-fetched, Preserves-drop_claim, Maintains-claim, Maintains-publish,
  Maintains-fail, Maintains-mark_stale, Maintains-record_outcome, Maintains-emit, Maintains-get_at,
  Maintains-observed_read, Maintains-observed_write, Maintains-observe, Maintains-wait,
}
use the_six.Manager.Maintains.Reads.{Maintains-try_fallback_tier}

module _ {V S : Type 0} {T : CacheTier V S} {P : Shared S → Type 0} (st : Stable T P) where
  Maintains-wait_and_get :
      (key : List ℕ) (ctx : CacheContext) → Maintains P (wait_and_get T key ctx)
  unfolding wait_and_get
  Maintains-wait_and_get key ctx =
      search (maintains_rules, Maintains-wait st, Maintains-observe st, Maintains-observed_read st)
        depth 16

  module _ (fetch : ℕ → Result V) where
    Maintains-store_value :
        (key : List ℕ) (generation : ℕ) (tier : TierId) (value : V) (ttl : Option ℕ)
        → is_cache_rung tier ≡ true
        → Maintains P (store_value T fetch key generation tier value ttl)
    unfolding store_value
    Maintains-store_value key generation tier value ttl c =
        Maintains-bind _ _ (Maintains-gets (λ s. has_tier s tier)) (λ bound.
          Maintains-if (not bound) _ _ (λ _. Maintains-raise tier_unavailable)
            (λ _.
              Maintains-bind _ _
                (Maintains-attempt _
                  (Maintains-observed_write st Telemetry.get_or_fetch key tier value ttl c))
                (λ stored. Maintains-then _ _ (Maintains-record_outcome st tier stored) (
                  Maintains-then _ _ (Maintains-lift stored) (
                    Maintains-then _ _ (Maintains-publish st key generation tier ttl)
                      (Maintains-pure value))))))

    Maintains-populate_once :
        (attempts : ℕ) (key : List ℕ) (generation : ℕ) (wanted : TierId) (ttl : Option ℕ)
        → Maintains P (populate_once T fetch attempts key generation wanted ttl)
    unfolding populate_once
    Maintains-populate_once attempts key generation wanted ttl =
        Maintains-bind _ _ (Maintains-fetched (fetch attempts)) (λ value.
          Maintains-gets_bind (λ s. nearest_bound_rung s wanted)
            (λ nearest.
              option_case nearest (λ tier. store_value T fetch key generation tier value ttl)
                (raise tier_unavailable))
            (λ s. elim (Option-cases (nearest_bound_rung s wanted)) [
              | inl nothing ↦ rw nothing (Maintains-raise tier_unavailable)
              | inr (tier, found) ↦ rw found (
                  Maintains-store_value key generation tier value ttl
                    (nearest_bound_rung-is_cache_rung s wanted tier found))
            ]))

    Maintains-fail_population :
        (key : List ℕ) (tier : TierId) (e : CacheError)
        → Maintains P (fail_population T fetch key tier e)
    unfolding fail_population
    Maintains-fail_population key tier e =
        search (maintains_rules, Maintains-emit st, Maintains-fail st)

    Maintains-populate :
        (left attempts : ℕ) (key : List ℕ) (generation : ℕ) (tier : TierId) (ttl : Option ℕ)
        → Maintains P (populate T fetch left attempts key generation tier ttl)
    unfolding populate
    Maintains-populate zero attempts key generation tier ttl =
        search (maintains_rules, Maintains-populate_once, Maintains-fail_population)
    Maintains-populate (suc left) attempts key generation tier ttl =
        let again = Maintains-populate left (attempts + 1) key generation tier ttl in
        Maintains-bind _ _
          (Maintains-attempt _ (Maintains-populate_once attempts key generation tier ttl))
          (λ outcome.
            Maintains-result_case outcome _ _ (λ v. Maintains-pure (ok v))
              (λ e.
                Maintains-if (is_retryable e) _ _ (λ _. Maintains-then _ _ Maintains-sleep again)
                  (λ _. Maintains-fail_population key tier e)))

    Maintains-become :
        (key framed : List ℕ) (generation : ℕ) (ctx : CacheContext) (decision : PolicyDecision)
        → Maintains P (become_population_owner T fetch key framed generation ctx decision)
    unfolding become_population_owner
    Maintains-become key framed generation ctx decision =
        Maintains-bind _ _
          (Maintains-guarded (drop_claim framed) _ (Preserves-drop_claim st framed)
            (Maintains-populate 2 1 framed generation decision.tier ctx.ttl))
          (λ outcome. search (maintains_rules, Maintains-try_fallback_tier st) depth 14)

    Maintains-join_by :
        (state : EntryState) (again : Task S V) (key framed : List ℕ) (ctx : CacheContext)
        (decision : PolicyDecision) (snapshot : ControlSnapshot)
        → Maintains P again
        → Maintains P (join_by T fetch state again key framed ctx decision snapshot)
    unfolding join_by
    Maintains-join_by in_flight again key framed ctx decision snapshot k =
        search (maintains_rules, Maintains-wait_and_get, Maintains-become)
    Maintains-join_by prepared again key framed ctx decision snapshot k =
        search (maintains_rules, Maintains-wait_and_get, Maintains-wait st, k)
    Maintains-join_by absent again key framed ctx decision snapshot k = search (Maintains-become)
    Maintains-join_by ready again key framed ctx decision snapshot k = search (Maintains-become)
    Maintains-join_by stale again key framed ctx decision snapshot k = search (Maintains-become)
    Maintains-join_by failed again key framed ctx decision snapshot k = search (Maintains-become)

    Maintains-read_committed :
        (framed : List ℕ) (snapshot : ControlSnapshot)
        → Maintains P (read_committed T fetch framed snapshot)
    unfolding read_committed
    Maintains-read_committed framed snapshot =
        search (maintains_rules, Maintains-observed_read st) depth 14

    Maintains-reclaim :
        (framed : List ℕ) (tier : TierId) (snapshot : ControlSnapshot)
        → Maintains P (reclaim T fetch framed tier snapshot)
    unfolding reclaim
    Maintains-reclaim framed tier snapshot =
        search (maintains_rules, Maintains-mark_stale st, Maintains-claim st) depth 14

    Maintains-fetch_loop :
        (left : ℕ) (key framed : List ℕ) (ctx : CacheContext) (decision : PolicyDecision)
        → Maintains P (fetch_loop T fetch left key framed ctx decision)
    unfolding fetch_loop
    Maintains-fetch_loop zero key framed ctx decision = search maintains_rules
    Maintains-fetch_loop (suc left) key framed ctx decision =
        let again = Maintains-fetch_loop left key framed ctx decision in
        Maintains-bind _ _ (Maintains-claim st framed decision.tier) (λ first.
          Maintains-bind _ _ (Maintains-reclaim framed decision.tier first) (λ snapshot.
            Maintains-bind _ _ (Maintains-read_committed framed snapshot) (λ committed.
              Maintains-option_case committed _ _ Maintains-pure
                (Maintains-join_by snapshot.state _ key framed ctx decision snapshot again))))

    module _ (select : CacheOperation → CacheState → Bool → PolicyDecision) where
      Maintains-admit_framed :
          (operation : CacheOperation) (key : List ℕ) (ctx : CacheContext)
          → Maintains P (admit_framed T fetch select operation key ctx)
      unfolding admit_framed
      Maintains-admit_framed operation key ctx = search maintains_rules depth 14

      pub Maintains-get_or_fetch :
          (key : List ℕ) (ctx : CacheContext) → Maintains P (get_or_fetch T fetch select key ctx)
      unfolding get_or_fetch
      Maintains-get_or_fetch key ctx =
          Maintains-bind _ _ (Maintains-admit_framed Policy.get key ctx)
            (λ admitted. Maintains-fetch_loop 8 key admitted.0 ctx admitted.1)

      Maintains-current_value :
          (framed : List ℕ) (before : ControlSnapshot)
          → Maintains P (current_value T fetch select framed before)
      unfolding current_value
      Maintains-current_value framed before = search (maintains_rules, Maintains-get_at st) depth 16

      Maintains-after_refresh :
          (framed : List ℕ) (snapshot : ControlSnapshot) (current : Option V) (r : Result V)
          → Maintains P (after_refresh T fetch select framed snapshot current r)
      unfolding after_refresh
      Maintains-after_refresh framed snapshot current (ok v) = search maintains_rules
      Maintains-after_refresh framed snapshot none (err e) = search maintains_rules
      Maintains-after_refresh framed snapshot (some v) (err e) =
          search (maintains_rules, Maintains-emit st)

      pub Maintains-refresh_detailed :
          (key : List ℕ) (ctx : CacheContext)
          → Maintains P (refresh_detailed T fetch select key ctx)
      unfolding refresh_detailed
      Maintains-refresh_detailed key ctx =
          Maintains-bind _ _ (Maintains-admit_framed Policy.refresh key ctx) (λ admitted.
            Maintains-bind _ _ (Maintains-observe st admitted.0) (λ before.
              Maintains-bind _ _ (Maintains-current_value admitted.0 before) (λ current.
                Maintains-bind _ _
                  (Maintains-if (is_state before.state ready && not before.expired) _ _
                    (λ _. Maintains-mark_stale st admitted.0) (λ _. Maintains-pure _))
                  (λ _.
                    Maintains-bind _ _ (Maintains-claim st admitted.0 admitted.1.tier) (λ snapshot.
                      Maintains-if (not snapshot.population_owner) _ _ (λ _. Maintains-pure _)
                        (λ _.
                          Maintains-bind _ _
                            (Maintains-attempt _ (
                              Maintains-become key admitted.0 snapshot.generation ctx
                                (record admitted.1 { fail_mode = fail_closed })))
                            (λ outcome.
                              Maintains-after_refresh admitted.0 snapshot current outcome)))))))

      pub Maintains-refresh :
          (key : List ℕ) (ctx : CacheContext) → Maintains P (refresh T fetch select key ctx)
      unfolding refresh
      Maintains-refresh key ctx = search (maintains_rules, Maintains-refresh_detailed)
