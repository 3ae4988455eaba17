-- ===== src/Manager/Drops/Writes.antt =====
-- A `set` of `src/manager.rs` that is dropped.
use the_six.Base.{
  ◌==◌, refl, ℕ, zero, suc, ◌≡◌, Bool, true, false, not, Option, none, List, [], ◌∷◌,
}
use the_six.Base.Result.{tier_unavailable, policy_denied, CacheError, Result, ok}
use the_six.Tier.{TierId, is_cache_rung, as_usize}
use the_six.Tier.Interface.{CacheTier}
use the_six.Integrity.{KeyAddress}
use the_six.Entry.{write}
use the_six.Policy
use the_six.Policy.{CacheOperation, CacheState, PolicyDecision, cache_ladder}
use the_six.Control.Cachelito.{address_for}
use the_six.Control.Cachelito.Lookup.{find}
use the_six.Control.History.Step.{IsConsistent}
use the_six.Manager.{Shared, World, drops, Task}
use the_six.Manager.Rungs.{
  CacheContext, encode_key, check_auth, authorize, from_snapshot, is_authenticated, has_tier,
}
use the_six.Manager.Writes
use the_six.Manager.Reads.{observe}
use the_six.Tier.Registry.{failures_of}
use the_six.Manager.Writes.{
  Verdict, finished, refused, lost, verdict_case, descent, is_capacity_exhausted,
  max_eviction_attempts, write_by, max_eviction_passes, write_guarded, write_once, race, walk, pass,
  passes,
}
use the_six.Manager.Evictions.{take_slot, evict_at_rung, free_slot}
use the_six.Manager.Maintains.{IsFair, Maintains-gets, Maintains-lift, Maintains-attempt}
use the_six.Manager.Maintains.Writes.{
  Maintains-write_guarded, Maintains-write_once, Maintains-race, Maintains-walk,
  Maintains-free_slot, AllCache, descent-AllCache, cache_ladder-AllCache, Maintains-evict_at_rung,
}
use the_six.Manager.Maintains.Primitives.{
  Maintains-nominate, Maintains-reserve, Maintains-evict, Maintains-observe,
}
use the_six.Manager.Drops.{
  Clears, Clears-bind, Clears-then, Clears-ok_bind, Clears-pure, Clears-gets, Clears-if,
  Clears-lift, Clears-raise, Clears-option_case, Clears-result_case, Clears-attempt, Clears-now_do,
  clears_rules,
}
use the_six.Manager.Drops.Intents.{IsFree, At, Free, At-Stable, Clears-prepare, Clears-drop_guard}

module _ {S : Type 0} {P Q : Shared S → Type 0} where
  pub Clears-observe : (key : List ℕ) → Clears P Q (observe {S = S} key)
  unfolding observe
  Clears-observe key = search clears_rules

  Clears-verdict_case :
      {B : Type 0} (v : Verdict) (f : Result (Unit {0}) → Task S B) (g : CacheError → Task S B)
      (n : Task S B)
      → ((r : Result (Unit {0})) → Clears P Q (f r))
      → ((e : CacheError) → Clears P Q (g e))
      → Clears P Q n
      → Clears P Q (verdict_case v f g n)
  Clears-verdict_case (finished r) f g n cf cg cn = cf r
  Clears-verdict_case (refused e) f g n cf cg cn = cg e
  Clears-verdict_case lost f g n cf cg cn = cn

module _ {V S : Type 0} (T : CacheTier V S) (key : List ℕ) (a : KeyAddress) (value : V)
    (ttl : Option ℕ) where
  Clears-write_once :
      (last : Bool) (rung : TierId)
      → is_cache_rung rung ≡ true
      → Clears (At key a) (Free key a) (write_once T last rung key value ttl)
  unfolding write_once
  Clears-write_once last rung c = Clears-prepare key a T none rung write _ (λ token same.
      Clears-drop_guard key a token (write_guarded T last rung key value ttl token) same
        (Maintains-write_guarded (At-Stable key a T) rung c last key value ttl token))

  Clears-race :
      (left : ℕ) (rung : TierId)
      → is_cache_rung rung ≡ true
      → Clears (At key a) (Free key a) (race T left rung key value ttl)
  unfolding race
  Clears-race zero rung c = Clears-write_once true rung c
  Clears-race (suc left) rung c =
      Clears-bind _ _ (Maintains-write_once (At-Stable key a T) rung c false key value ttl)
        (Clears-write_once false rung c)
        (λ verdict.
          Clears-verdict_case verdict _ _ _ (λ r. Clears-pure (finished r))
            (λ e. Clears-pure (refused e)) (Clears-race left rung c))

  Clears-walk :
      (rungs : List TierId) (e : CacheError)
      → AllCache rungs
      → Clears (At key a) (Free key a) (walk T rungs e key value ttl)
  unfolding walk
  Clears-walk [] e all = Clears-pure (refused e)
  Clears-walk (rung ∷ rungs) e all =
      let next : (x : CacheError) → Clears (At key a) (Free key a) (walk T rungs x key value ttl) =
        λ x. Clears-walk rungs x all.1 in
      Clears-bind _ _ (Maintains-gets (λ s. has_tier s rung)) (Clears-gets (λ s. has_tier s rung))
        (λ bound. Clears-if (not bound) _ _ (next e) (
          Clears-bind _ _ (Maintains-race (At-Stable key a T) rung all.0 63 key value ttl)
            (Clears-race 63 rung all.0)
            (λ verdict.
              Clears-verdict_case verdict _ _ _ (λ r. Clears-pure (finished r)) next (next e))))

  -- An eviction awaits nothing.
  Clears-evict_at_rung :
      (rung : TierId) (left : ℕ)
      → is_cache_rung rung ≡ true
      → Clears (At key a) (Free key a) (evict_at_rung T rung left)
  unfolding evict_at_rung take_slot
  Clears-evict_at_rung rung zero c = Clears-pure _
  Clears-evict_at_rung rung (suc left) c =
      let again = Clears-evict_at_rung rung left c in
      let st = At-Stable key a T in
      Clears-bind _ _ (Maintains-nominate st rung c) (Clears-now_do _) (λ candidate.
        Clears-option_case candidate _ _
          (λ address.
            Clears-bind _ _ (Maintains-attempt _ (Maintains-reserve st address))
              (Clears-attempt _ (Clears-now_do _))
              (λ reserved.
                Clears-result_case reserved _ _
                  (λ granted.
                    Clears-if granted _ _
                      (Clears-bind _ _ (Maintains-attempt _ (Maintains-evict st rung address c))
                        (Clears-attempt _ (Clears-now_do _)) (λ removed. Clears-pure _))
                      again)
                  (λ _. Clears-pure _)))
          (Clears-pure _))

  Clears-free_slot :
      (rungs : List TierId) (budget : ℕ)
      → AllCache rungs
      → Clears (At key a) (Free key a) (free_slot T rungs budget)
  unfolding free_slot
  Clears-free_slot [] budget all = Clears-pure false
  Clears-free_slot (rung ∷ rungs) budget all =
      let next : (b : ℕ) → Clears (At key a) (Free key a) (free_slot T rungs b) =
        λ b. Clears-free_slot rungs b all.1 in
      Clears-bind _ _ (Maintains-gets (λ s. has_tier s rung)) (Clears-gets (λ s. has_tier s rung))
        (λ bound. Clears-if (not bound) _ _ (next budget) (
          Clears-bind _ _ (Maintains-evict_at_rung (At-Stable key a T) rung all.0 budget)
            (Clears-evict_at_rung rung budget all.0)
            (λ outcome. Clears-if outcome.0 _ _ (Clears-pure true) (next outcome.1))))

  Clears-pass :
      (again : CacheError → Task S (Unit {0})) (rung : TierId) (e : CacheError)
      → ((x : CacheError) → Clears (At key a) (Free key a) (again x))
      → Clears (At key a) (Free key a) (pass T again rung e key value ttl)
  unfolding pass
  Clears-pass again rung e k =
      let st = At-Stable key a T in
      Clears-bind _ _ (Maintains-walk st (descent rung) e key value ttl (descent-AllCache rung))
        (Clears-walk (descent rung) e (descent-AllCache rung))
        (λ verdict.
          Clears-verdict_case verdict _ _ _ Clears-lift
            (λ x. Clears-if (not (is_capacity_exhausted x)) _ _ (Clears-raise x) (
              Clears-bind _ _
                (Maintains-free_slot st cache_ladder max_eviction_attempts cache_ladder-AllCache)
                (Clears-free_slot cache_ladder max_eviction_attempts cache_ladder-AllCache)
                (λ freed. Clears-if freed _ _ (k x) (Clears-raise x))))
            (Clears-raise e))

  Clears-passes :
      (left : ℕ) (rung : TierId) (e : CacheError)
      → Clears (At key a) (Free key a) (passes T left rung e key value ttl)
  unfolding passes
  Clears-passes zero rung e = Clears-pass _ rung e Clears-raise
  Clears-passes (suc left) rung e = Clears-pass _ rung e (Clears-passes left rung)

  Clears-write_by :
      (authority : TierId) (decision : PolicyDecision)
      → Clears (At key a) (Free key a) (write_by T authority decision key value ttl)
  unfolding write_by
  Clears-write_by authority decision =
      Clears-then _ _ (Maintains-lift (authorize decision)) (Clears-lift (authorize decision)) (
        Clears-if (as_usize decision.tier == as_usize authority) _ _ (Clears-raise policy_denied)
          (Clears-passes max_eviction_passes decision.tier tier_unavailable))

module _ {V S : Type 0} (T : CacheTier V S)
    (select : CacheOperation → CacheState → Bool → PolicyDecision) (authority : TierId)
    (key framed : List ℕ) (value : V) (ctx : CacheContext) (a : KeyAddress)
    (encoded : encode_key key ctx ≡ ok framed) where
  Clears-set : Clears (At framed a) (Free framed a) (Writes.set T select authority key value ctx)
  unfolding Writes.set
  Clears-set =
      let st = At-Stable framed a T in
      Clears-then _ _ (Maintains-lift (check_auth ctx)) (Clears-lift (check_auth ctx)) (
        Clears-ok_bind (encode_key key ctx) framed _ encoded (
          Clears-bind _ _ (Maintains-observe st framed) (Clears-observe framed) (λ snapshot.
            Clears-bind _ _ (Maintains-gets (λ s. failures_of s.registry snapshot.tier))
              (Clears-gets (λ s. failures_of s.registry snapshot.tier))
              (λ failures.
                Clears-write_by T framed a value ctx.ttl authority
                  (select Policy.set (from_snapshot snapshot failures) (is_authenticated ctx))))))

-- Whatever the other tasks do, as long as the plane stays consistent and the key's address the same:
-- a `set` that is dropped at an await, or with an await, leaves no intent at the address of its key.
pub set-IsFree :
    {V S : Type 0} (T : CacheTier V S)
    (select : CacheOperation → CacheState → Bool → PolicyDecision) (authority : TierId)
    (key framed : List ℕ) (value : V) (ctx : CacheContext) (w : World S)
    → encode_key key ctx ≡ ok framed
    → IsConsistent w.shared.plane
    → IsFair (At framed (address_for w.shared.plane framed)) w.schedule
    → (Writes.set T select authority key value ctx w).0 ≡ drops
    → IsFree (
        find
          (Writes.set T select authority key value ctx w).1.shared.plane
          (address_for w.shared.plane framed))
set-IsFree T select authority key framed value ctx w encoded h fair =
    (Clears-set T select authority key framed value ctx (address_for w.shared.plane framed)
        encoded).at
      w (h, refl) fair
