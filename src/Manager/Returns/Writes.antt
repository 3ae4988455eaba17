-- ===== src/Manager/Returns/Writes.antt =====
-- What a `set` of `src/manager.rs` leaves in the plane where it returns.
use the_six.Base.{
  ◌==◌, refl, ℕ, zero, suc, ◌≡◌, Bool, true, false, not, Option, none, List, [], ◌∷◌, if◌then◌else◌,
  ◌∙◌, arith,
}
use the_six.Base.Result.{
  tier_unavailable, policy_denied, write_contended, stale_generation, CacheError, Result, ok, err,
}
use the_six.Tier.{TierId, is_cache_rung, as_usize, as_u8}
use the_six.Tier.Interface.{CacheTier}
use the_six.Tier.Registry.{failures_of}
use the_six.Integrity.{KeyAddress}
use the_six.Entry.{write, CommitToken}
use the_six.Policy
use the_six.Policy.{CacheOperation, CacheState, PolicyDecision, cache_ladder}
use the_six.Telemetry
use the_six.Control.Cachelito.{address_for, prepare, commit}
use the_six.Control.History.Step.{IsConsistent}
use the_six.Control.TwoPhase.Commit.{prepare-Prepared}
use the_six.Manager.{Shared, World, returns, Task}
use the_six.Manager.Rungs.{
  CacheContext, encode_key, check_auth, authorize, from_snapshot, is_authenticated, has_tier,
  on_plane,
}
use the_six.Manager.Writes
use the_six.Manager.Writes.{
  Verdict, finished, refused, lost, verdict_case, descent, is_capacity_exhausted, drop_guard,
  max_eviction_attempts, write_by, max_eviction_passes, write_guarded, write_once, race, walk, pass,
  passes, after_commit, after_write, forces_walk, lose,
}
use the_six.Manager.Maintains.{IsFair, Maintains-gets, Maintains-lift, Maintains-attempt}
use the_six.Manager.Maintains.Writes.{
  Maintains-write_once, Maintains-race, Maintains-walk, Maintains-free_slot, AllCache,
  descent-AllCache, cache_ladder-AllCache, Maintains-clear_residue, Maintains-abort_intent,
}
use the_six.Manager.Maintains.Primitives.{
  Maintains-observe, Preserves-prepare, Maintains-commit, Maintains-observed_write,
  Maintains-record_outcome, Maintains-remove_unbounded, Maintains-abort_plainly,
  Maintains-drop_guard, Maintains-sleep,
}
use the_six.Manager.Drops.Intents.{At, At-Stable}
use the_six.Manager.Returns.{
  Yields, Any, Yields-pure, Yields-raise, Yields-lift, Yields-now_do, Yields-guarded, Yields-if,
  Yields-attempt, Yields-bind, Yields-then, Yields-next, Yields-ok_bind, Yields-now_do_bind,
}
use the_six.Manager.Returns.Commits.{IsCommitted, commit-IsCommitted}

module _ {S : Type 0} (a : KeyAddress) (ttl : Option ℕ) where
  -- A result, or a verdict, that says that the write is committed.
  abbrev pub Settled : Result (Unit {0}) → Shared S → Type 0
  Settled (ok done) s = IsCommitted a ttl s.plane
  Settled (err e) s = Unit

  abbrev pub Landed : Verdict → Shared S → Type 0
  Landed (finished r) s = Settled r s
  Landed (refused e) s = Unit
  Landed lost s = Unit

  refusal-Landed :
      (b : Bool) (e : CacheError) (s : Shared S)
      → Landed (if b then refused e else finished (err e)) s
  refusal-Landed true e s = tt
  refusal-Landed false e s = tt

  Settled-ok :
      (r : Result (Unit {0})) (done : Unit {0}) (s : Shared S)
      → r ≡ ok done
      → Settled r s
      → IsCommitted a ttl s.plane
  Settled-ok (ok _) done s h p = p
  Settled-ok (err e) done s h p = absurd (ground (arith, h))

  Yields-verdict_case :
      {P : Shared S → Type 0} {B : Type 0} {R : B → Shared S → Type 0} (v : Verdict)
      (f : Result (Unit {0}) → Task S B) (g : CacheError → Task S B) (n : Task S B)
      → ((r : Result (Unit {0})) → Yields P (Settled r) R (f r))
      → ((e : CacheError) → Yields P Any R (g e))
      → Yields P Any R n
      → Yields P (Landed v) R (verdict_case v f g n)
  Yields-verdict_case (finished r) f g n yf yg yn = yf r
  Yields-verdict_case (refused e) f g n yf yg yn = yg e
  Yields-verdict_case lost f g n yf yg yn = yn

module _ {V S : Type 0} (T : CacheTier V S) (key : List ℕ) (a : KeyAddress) (value : V)
    (ttl : Option ℕ) where
  Yields-lose :
      (last : Bool) (token : CommitToken) (Pre : Shared S → Type 0)
      → Yields (At key a) Pre (Landed a ttl) (lose last token)
  unfolding lose
  Yields-lose true token Pre =
      Yields-then _ _ (Maintains-drop_guard (At-Stable key a T) token)
        (Yields-pure (finished (err write_contended)) (λ s h p. tt))
  Yields-lose false token Pre = Yields-then _ _ Maintains-sleep (
      Yields-then _ _ (Maintains-drop_guard (At-Stable key a T) token)
        (Yields-pure lost (λ s h p. tt)))

  module _ (rung : TierId) (c : is_cache_rung rung ≡ true) where
    Yields-after_commit :
        (last : Bool) (token : CommitToken) (r : Result (Unit {0}))
        → Yields (At key a) (Settled a ttl r) (Landed a ttl) (after_commit T last rung key token r)
    unfolding after_commit
    Yields-after_commit last token (ok _) = Yields-pure _ (λ s h p. p)
    Yields-after_commit last token (err stale_generation) = Yields-lose last token _
    Yields-after_commit last token (err e) =
        Yields-next _ _
          (Maintains-attempt _ (Maintains-remove_unbounded (At-Stable key a T) rung key c))
          (λ _.
            Yields-next _ _ (Maintains-abort_plainly (At-Stable key a T) token e)
              (λ _. Yields-pure (finished (err e)) (λ s h p. tt)))

    Yields-after_write :
        (last : Bool) (token : CommitToken) (r : Result (Unit {0}))
        → token.address ≡ a
        → token.target_tier ≡ as_u8 rung
        → Yields (At key a) Any (Landed a ttl) (after_write T last rung key ttl token r)
    unfolding after_write
    Yields-after_write last token (ok _) same target =
        Yields-bind (Settled a ttl) _ _
          (Maintains-attempt _ (Maintains-commit (At-Stable key a T) token ttl))
          (Yields-attempt _
            (Yields-now_do (on_plane (λ now plane. commit plane now token ttl))
              (λ s h p b d. commit-IsCommitted h.0.shaped s.now token ttl rung a same target c d))
            (λ e s. tt))
          (Yields-after_commit last token)
    Yields-after_write last token (err e) same target =
        Yields-next _ _ (Maintains-abort_intent (At-Stable key a T) token e) (λ _.
          Yields-pure (if forces_walk e then refused e else finished (err e))
            (λ s h p. refusal-Landed a ttl (forces_walk e) e s))

    Yields-write_guarded :
        (last : Bool) (token : CommitToken)
        → token.address ≡ a
        → token.target_tier ≡ as_u8 rung
        → Yields (At key a) Any (Landed a ttl) (write_guarded T last rung key value ttl token)
    unfolding write_guarded
    Yields-write_guarded last token same target =
        let st = At-Stable key a T in
        Yields-next _ _
          (Maintains-attempt _ (Maintains-observed_write st Telemetry.set key rung value ttl c))
          (λ result. Yields-then _ _ (Maintains-record_outcome st rung result) (
            Yields-next _ _ (Maintains-clear_residue st rung c key result)
              (λ _. Yields-after_write last token result same target)))

    Yields-write_once :
        (last : Bool) → Yields (At key a) Any (Landed a ttl) (write_once T last rung key value ttl)
    unfolding write_once on_plane
    Yields-write_once last =
        Yields-now_do_bind (on_plane (λ now plane. prepare plane now key none rung write)) _
          (Preserves-prepare (At-Stable key a T) key none rung write)
          (λ s h token issued.
            let (e, found, p, at) = prepare-Prepared h.0 s.now key none rung write token issued in
            Yields-guarded (drop_guard token) _
              (Yields-write_guarded last token (at ∙ h.1) p.target))

    Yields-race : (left : ℕ) → Yields (At key a) Any (Landed a ttl) (race T left rung key value ttl)
    unfolding race
    Yields-race zero = Yields-write_once true
    Yields-race (suc left) =
        Yields-bind (Landed a ttl) _ _
          (Maintains-write_once (At-Stable key a T) rung c false key value ttl)
          (Yields-write_once false)
          (λ verdict.
            Yields-verdict_case a ttl verdict _ _ _ (λ r. Yields-pure (finished r) (λ s h p. p))
              (λ e. Yields-pure (refused e) (λ s h p. tt)) (Yields-race left))

  Yields-walk :
      (rungs : List TierId) (e : CacheError)
      → AllCache rungs
      → Yields (At key a) Any (Landed a ttl) (walk T rungs e key value ttl)
  unfolding walk
  Yields-walk [] e all = Yields-pure (refused e) (λ s h p. tt)
  Yields-walk (rung ∷ rungs) e all =
      let next : (x : CacheError)
          → Yields (At key a) Any (Landed a ttl) (walk T rungs x key value ttl) =
        λ x. Yields-walk rungs x all.1 in
      Yields-next _ _ (Maintains-gets (λ s. has_tier s rung)) (λ bound.
        Yields-if (not bound) _ _ (next e) (
          Yields-bind (Landed a ttl) _ _
            (Maintains-race (At-Stable key a T) rung all.0 63 key value ttl)
            (Yields-race rung all.0 63)
            (λ verdict.
              Yields-verdict_case a ttl verdict _ _ _ (λ r. Yields-pure (finished r) (λ s h p. p))
                next (next e))))

  Yields-pass :
      (again : CacheError → Task S (Unit {0})) (rung : TierId) (e : CacheError)
      → ((x : CacheError) → Yields (At key a) Any (λ _ s. IsCommitted a ttl s.plane) (again x))
      → Yields (At key a) Any (λ _ s. IsCommitted a ttl s.plane) (pass T again rung e key value ttl)
  unfolding pass
  Yields-pass again rung e k =
      let st = At-Stable key a T in
      Yields-bind (Landed a ttl) _ _
        (Maintains-walk st (descent rung) e key value ttl (descent-AllCache rung))
        (Yields-walk (descent rung) e (descent-AllCache rung))
        (λ verdict.
          Yields-verdict_case a ttl verdict _ _ _
            (λ r. Yields-lift r (λ s h p b d. Settled-ok a ttl r b s d p))
            (λ x. Yields-if (not (is_capacity_exhausted x)) _ _ (Yields-raise x) (
              Yields-next _ _
                (Maintains-free_slot st cache_ladder max_eviction_attempts cache_ladder-AllCache)
                (λ freed. Yields-if freed _ _ (k x) (Yields-raise x))))
            (Yields-raise e))

  Yields-passes :
      (left : ℕ) (rung : TierId) (e : CacheError)
      → Yields
          (At key a)
          Any
          (λ _ s. IsCommitted a ttl s.plane)
          (passes T left rung e key value ttl)
  unfolding passes
  Yields-passes zero rung e = Yields-pass _ rung e Yields-raise
  Yields-passes (suc left) rung e = Yields-pass _ rung e (Yields-passes left rung)

  Yields-write_by :
      (authority : TierId) (decision : PolicyDecision)
      → Yields
          (At key a)
          Any
          (λ _ s. IsCommitted a ttl s.plane)
          (write_by T authority decision key value ttl)
  unfolding write_by
  Yields-write_by authority decision = Yields-then _ _ (Maintains-lift (authorize decision)) (
      Yields-if (as_usize decision.tier == as_usize authority) _ _ (Yields-raise policy_denied)
        (Yields-passes max_eviction_passes decision.tier tier_unavailable))

module _ {V S : Type 0} (T : CacheTier V S)
    (select : CacheOperation → CacheState → Bool → PolicyDecision) (authority : TierId)
    (key framed : List ℕ) (value : V) (ctx : CacheContext) (a : KeyAddress)
    (encoded : encode_key key ctx ≡ ok framed) where
  Yields-set :
      Yields
        (At framed a)
        Any
        (λ _ s. IsCommitted a ctx.ttl s.plane)
        (Writes.set T select authority key value ctx)
  unfolding Writes.set
  Yields-set =
      let st = At-Stable framed a T in
      Yields-then _ _ (Maintains-lift (check_auth ctx)) (
        Yields-ok_bind (encode_key key ctx) framed _ encoded (
          Yields-next _ _ (Maintains-observe st framed) (λ snapshot.
            Yields-next _ _ (Maintains-gets (λ s. failures_of s.registry snapshot.tier))
              (λ failures.
                Yields-write_by T framed a value ctx.ttl authority
                  (select Policy.set (from_snapshot snapshot failures) (is_authenticated ctx))))))

-- A `set` that returns has committed: whatever the other tasks do, as long as they keep the plane
-- consistent and the key's address the same, the entry of the key is then ready on a rung of the
-- ladder, with the caller's lifetime, and has no intent, owner or error.
pub set-IsCommitted :
    {V S : Type 0} (T : CacheTier V S)
    (select : CacheOperation → CacheState → Bool → PolicyDecision) (authority : TierId)
    (key framed : List ℕ) (value : V) (ctx : CacheContext) (w : World S)
    → encode_key key ctx ≡ ok framed
    → IsConsistent w.shared.plane
    → IsFair (At framed (address_for w.shared.plane framed)) w.schedule
    → (Writes.set T select authority key value ctx w).0 ≡ returns tt
    → IsCommitted
        (address_for w.shared.plane framed)
        ctx.ttl
        (Writes.set T select authority key value ctx w).1.shared.plane
set-IsCommitted T select authority key framed value ctx w encoded h fair done =
    (Yields-set T select authority key framed value ctx (address_for w.shared.plane framed)
        encoded).at
      w (h, refl) fair tt tt done
