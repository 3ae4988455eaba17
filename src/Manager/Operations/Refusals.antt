-- ===== src/Manager/Operations/Refusals.antt =====
-- The refusals of `src/manager.rs`: a caller without a principal changes nothing that is cached.
use the_six.Base.{ℕ, ◌≡◌, refl, Bool, List, ap, inl, inr, arith, false}
use the_six.Base.Result.{Result, CacheError, err, unauthenticated, Result-cases}
use the_six.Tier.{TierId, l0}
use the_six.Tier.Interface.{CacheTier}
use the_six.Policy.{CacheOperation, CacheState, PolicyDecision}
use the_six.Manager.{
  World, Task, ◌>>=◌, Exit, raises, returns, drops, ◌>>◌, continue_with, lift, exit_of, raise,
  now_do, gets,
}
use the_six.Manager.Rungs.{
  CacheContext, observed_control_only, emit, is_authenticated, check_auth, encode_key,
}
use the_six.Manager.Reads.{get, exists, admit, refuse}
use the_six.Manager.Writes
use the_six.Manager.Moves.{promote, demote, invalidate_key, remove}
use the_six.Manager.Populate.{get_or_fetch, admit_framed}
use the_six.Manager.Refresh.{refresh, refresh_detailed}
use the_six.Manager.Operations.{
  Request, handle, reads, checks, promotes, demotes, invalidates, removes, writes, fetches,
  refreshes,
}
use the_six.Telemetry.{Operation}
use the_six.Telemetry

-- The caller of a request.
unfoldable pub context : {V : Type 0} → Request V → CacheContext
context (reads key ctx) = ctx
context (checks key ctx) = ctx
context (promotes key ctx) = ctx
context (demotes key ctx) = ctx
context (invalidates key ctx) = ctx
context (removes key ctx) = ctx
context (writes key value ctx) = ctx
context (fetches fetch key ctx) = ctx
context (refreshes fetch key ctx) = ctx

-- The task has ended in an error before its first await, and has changed nothing but the log.
pub record IsRefused {A S : Type 0} (w : World S) (r : Exit A × World S) : Type 0 where
  pub error : CacheError
  pub exit : r.0 ≡ raises error
  pub plane : r.1.shared.plane ≡ w.shared.plane
  pub rungs : r.1.shared.rungs ≡ w.shared.rungs
  pub registry : r.1.shared.registry ≡ w.shared.registry
  pub schedule : r.1.schedule ≡ w.schedule

module _ {S : Type 0} (w : World S) where
  module _ {A B : Type 0} (f : A → Task S B) where
    continue_with-IsRefused :
        (r : Exit A × World S) → IsRefused w r → IsRefused w (continue_with r f)
    continue_with-IsRefused (returns a, v) h = absurd (ground (arith, h.exit))
    continue_with-IsRefused (raises e, v) h = record {
      error = e;
      exit = refl;
      plane = h.plane;
      rungs = h.rungs;
      registry = h.registry;
      schedule = h.schedule;
    }
    continue_with-IsRefused (drops, v) h = absurd (ground (arith, h.exit))

    bind-IsRefused : (m : Task S A) → IsRefused w (m w) → IsRefused w ((m >>= f) w)
    unfolding ◌>>=◌
    bind-IsRefused m h = continue_with-IsRefused (m w) h

  then-IsRefused :
      {B : Type 0} (m : Task S (Unit {0})) (k : Task S B)
      → IsRefused w (m w)
      → IsRefused w ((m >> k) w)
  unfolding ◌>>◌
  then-IsRefused m k h = bind-IsRefused (λ _. k) m h

  lift-IsRefused : {A : Type 0} (r : Result A) (e : CacheError) → r ≡ err e → IsRefused w (lift r w)
  unfolding lift
  lift-IsRefused r e h = record {
    error = e;
    exit = ap exit_of h;
    plane = refl;
    rungs = refl;
    registry = refl;
    schedule = refl;
  }

  refuse-IsRefused :
      {A : Type 0} (op : Operation) (key : List ℕ) (tier : TierId) (started : ℕ) (e : CacheError)
      → IsRefused w (refuse {A = A} op key tier started e w)
  unfolding refuse observed_control_only emit now_do raise ◌>>=◌ ◌>>◌
  refuse-IsRefused op key tier started e = record {
    error = e;
    exit = refl;
    plane = refl;
    rungs = refl;
    registry = refl;
    schedule = refl;
  }

  module _ (ctx : CacheContext) (h : is_authenticated ctx ≡ false) where
    check_auth-err : check_auth ctx ≡ err unauthenticated
    unfolding check_auth
    check_auth-err = rw h refl

    check_auth-IsRefused : IsRefused w (lift (check_auth ctx) w)
    check_auth-IsRefused = lift-IsRefused (check_auth ctx) unauthenticated check_auth-err

ruleset refusals =
    (bind-IsRefused, then-IsRefused, lift-IsRefused, refuse-IsRefused, check_auth-IsRefused)

module _ {V S : Type 0} (T : CacheTier V S)
    (select : CacheOperation → CacheState → Bool → PolicyDecision) where
  module _ (key : List ℕ) (ctx : CacheContext) (w : World S)
      (h : is_authenticated ctx ≡ false) where
    -- The key is encoded before the caller is checked.
    get-IsRefused : IsRefused w (get T select key ctx w)
    unfolding get gets ◌>>=◌
    get-IsRefused = elim (Result-cases (encode_key key ctx)) [
      | inl (framed, encoded) ↦
          rw (encoded, lift, check_auth-err w ctx h)
            (refuse-IsRefused w Telemetry.get framed l0 w.shared.now unauthenticated)
      | inr (e, failed) ↦
          bind-IsRefused w _ (lift (encode_key key ctx))
            (lift-IsRefused w (encode_key key ctx) e failed)
    ]

    admit-IsRefused : (op : CacheOperation) → IsRefused w (admit T select op ctx w)
    unfolding admit
    admit-IsRefused op = search (refusals, h)

  module _ (authority : TierId) where
    -- A caller without a principal is refused by every operation with an error, before its first await:
    -- the plane, the rungs and the registry are left as they were.
    pub handle-IsRefused :
        (request : Request V) (w : World S)
        → is_authenticated (context request) ≡ false
        → IsRefused w (handle T select authority request w)
    unfolding context handle exists promote demote invalidate_key remove Writes.set get_or_fetch
        admit_framed refresh refresh_detailed
    handle-IsRefused (reads key ctx) w h = search (refusals, get-IsRefused)
    handle-IsRefused (checks key ctx) w h = search (refusals, admit-IsRefused)
    handle-IsRefused (promotes key ctx) w h = search (refusals, admit-IsRefused)
    handle-IsRefused (demotes key ctx) w h = search (refusals, admit-IsRefused)
    handle-IsRefused (invalidates key ctx) w h = search (refusals, admit-IsRefused)
    handle-IsRefused (removes key ctx) w h = search (refusals, admit-IsRefused)
    handle-IsRefused (writes key value ctx) w h = search (refusals, h)
    handle-IsRefused (fetches fetch key ctx) w h = search (refusals, h)
    handle-IsRefused (refreshes fetch key ctx) w h = search (refusals, h)
