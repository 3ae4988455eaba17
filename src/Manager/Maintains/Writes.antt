-- ===== src/Manager/Maintains/Writes.antt =====
-- A write of the manager keeps what is stable: it writes no rung but those of the ladder.
use the_six.Base.{
  ℕ, zero, suc, ◌≡◌, refl, Bool, true, false, not, Option, none, List, [], ◌∷◌, Bool-cases, inl,
  inr, if◌then◌else◌,
}
use the_six.Base.Sorting.{All}
use the_six.Base.Result.{CacheError, Result, ok, err, write_indeterminate, stale_generation}
use the_six.Tier.{TierId, l0, l1, l2, l3, l4, l5, l6, is_cache_rung}
use the_six.Tier.Interface.{CacheTier}
use the_six.Entry.{CommitToken, write}
use the_six.Integrity.{KeyAddress}
use the_six.Policy.{CacheOperation, CacheState, PolicyDecision, cache_ladder}
use the_six.Telemetry
use the_six.Control.History.{step, aborts, IsWellTyped}
use the_six.Control.Cachelito.{Cachelito, abort, abort_proven_clean}
use the_six.Manager.{Shared, Task, now_do}
use the_six.Manager.Rungs.{CacheContext, on_plane, write_provably_stored_nothing}
use the_six.Manager.Writes.{
  Verdict, finished, refused, lost, is_capacity_exhausted, max_eviction_attempts, verdict_case,
  descent, drop_guard, abort_intent, lose, after_commit, clear_residue, after_write, write_by,
  write_guarded, write_once, race, walk, pass, passes, set,
}
use the_six.Manager.Evictions.{take_slot, evict_at_rung, free_slot}
use the_six.Manager.Maintains.{
  Stable, Maintains, Maintains-now_do, Maintains-attempt, Maintains-guarded, Maintains-pure,
  Maintains-bind, Maintains-then, Maintains-if, Maintains-gets, Maintains-lift, Maintains-raise,
  Maintains-option_case, Maintains-result_case, maintains_rules,
}
use the_six.Manager.Maintains.Primitives.{
  Maintains-nominate, Maintains-evict, Maintains-sleep, Preserves-on_plane, Preserves-drop_guard,
  Maintains-drop_guard, Maintains-prepare, Maintains-commit, Maintains-reserve,
  Maintains-abort_plainly, Maintains-remove_at, Maintains-remove_unbounded,
  Maintains-record_outcome, Maintains-observed_write, Maintains-observe,
}

-- The walk and the eviction visit rungs of the ladder alone.
abbrev pub AllCache : List TierId → Type 0
AllCache rungs = All (λ t. is_cache_rung t ≡ true) rungs

pub descent-AllCache : (rung : TierId) → AllCache (descent rung)
unfolding descent is_cache_rung
descent-AllCache l0 = (refl, tt)
descent-AllCache l1 = (refl, (refl, tt))
descent-AllCache l2 = (refl, (refl, (refl, tt)))
descent-AllCache l3 = (refl, (refl, (refl, (refl, tt))))
descent-AllCache l4 = (refl, (refl, (refl, (refl, (refl, tt)))))
descent-AllCache l5 = (refl, (refl, (refl, (refl, (refl, (refl, tt))))))
descent-AllCache l6 = tt

pub cache_ladder-AllCache : AllCache cache_ladder
unfolding cache_ladder is_cache_rung
cache_ladder-AllCache = (refl, (refl, (refl, (refl, (refl, (refl, tt))))))

module _ {S : Type 0} {P : Shared S → Type 0} where
  Maintains-verdict_case :
      {B : Type 0} (v : Verdict) (f : Result (Unit {0}) → Task S B) (g : CacheError → Task S B)
      (n : Task S B)
      → ((r : Result (Unit {0})) → Maintains P (f r))
      → ((e : CacheError) → Maintains P (g e))
      → Maintains P n
      → Maintains P (verdict_case v f g n)
  Maintains-verdict_case (finished r) f g n kf kg kn = kf r
  Maintains-verdict_case (refused e) f g n kf kg kn = kg e
  Maintains-verdict_case lost f g n kf kg kn = kn

module _ {V S : Type 0} {T : CacheTier V S} {P : Shared S → Type 0} (st : Stable T P) where
  pub Maintains-abort_intent :
      (token : CommitToken) (e : CacheError) → Maintains P (abort_intent {S = S} token e)
  unfolding abort_intent
  Maintains-abort_intent token e = Maintains-attempt (now_do (on_plane f)) (
      Maintains-now_do (on_plane f) (
        Preserves-on_plane st f (λ _. aborts token e clean) (λ _. unfold IsWellTyped in tt)
          aborted))
    where
      clean : Bool
      clean = write_provably_stored_nothing e

      f : ℕ → Cachelito → Cachelito × Result (Unit {0})
      f _ plane = if clean then abort_proven_clean plane token e else abort plane token e

      aborted : (now : ℕ) (c : Cachelito) → (f now c).0 ≡ step c (aborts token e clean)
      aborted now c = elim (Bool-cases clean) [
        | inl proven ↦ rw proven (unfold step abort_proven_clean in refl)
        | inr unclear ↦ rw unclear (unfold step abort in refl)
      ]

  Maintains-lose : (last : Bool) (token : CommitToken) → Maintains P (lose {S = S} last token)
  unfolding lose
  Maintains-lose true token = search (maintains_rules, Maintains-drop_guard st)
  Maintains-lose false token = search (maintains_rules, Maintains-drop_guard st, Maintains-sleep)

  module _ (rung : TierId) (c : is_cache_rung rung ≡ true) where
    Maintains-after_commit :
        (last : Bool) (key : List ℕ) (token : CommitToken) (r : Result (Unit {0}))
        → Maintains P (after_commit T last rung key token r)
    unfolding after_commit
    Maintains-after_commit last key token (ok _) = search maintains_rules
    Maintains-after_commit last key token (err stale_generation) = Maintains-lose last token
    Maintains-after_commit last key token (err e) =
        Maintains-bind _ _ (Maintains-attempt _ (Maintains-remove_unbounded st rung key c))
          (λ _. Maintains-bind _ _ (Maintains-abort_plainly st token e) (λ _. Maintains-pure _))

    pub Maintains-clear_residue :
        (key : List ℕ) (r : Result (Unit {0})) → Maintains P (clear_residue T rung key r)
    unfolding clear_residue
    Maintains-clear_residue key (err write_indeterminate) =
        Maintains-attempt _ (Maintains-remove_at st rung key c)
    Maintains-clear_residue key r = Maintains-pure _

    Maintains-after_write :
        (last : Bool) (key : List ℕ) (ttl : Option ℕ) (token : CommitToken) (r : Result (Unit {0}))
        → Maintains P (after_write T last rung key ttl token r)
    unfolding after_write
    Maintains-after_write last key ttl token (ok _) =
        search (maintains_rules, Maintains-commit st, Maintains-after_commit)
    Maintains-after_write last key ttl token (err e) =
        search (maintains_rules, Maintains-abort_intent)

    pub Maintains-write_guarded :
        (last : Bool) (key : List ℕ) (value : V) (ttl : Option ℕ) (token : CommitToken)
        → Maintains P (write_guarded T last rung key value ttl token)
    unfolding write_guarded
    Maintains-write_guarded last key value ttl token =
        Maintains-bind _ _
          (Maintains-attempt _ (Maintains-observed_write st Telemetry.set key rung value ttl c))
          (λ result. Maintains-then _ _ (Maintains-record_outcome st rung result) (
            Maintains-bind _ _ (Maintains-clear_residue key result)
              (λ _. Maintains-after_write last key ttl token result)))

    pub Maintains-write_once :
        (last : Bool) (key : List ℕ) (value : V) (ttl : Option ℕ)
        → Maintains P (write_once T last rung key value ttl)
    unfolding write_once
    Maintains-write_once last key value ttl =
        Maintains-bind _ _ (Maintains-prepare st key none rung write) (λ token.
          Maintains-guarded (drop_guard token) _ (Preserves-drop_guard st token)
            (Maintains-write_guarded last key value ttl token))

    pub Maintains-race :
        (left : ℕ) (key : List ℕ) (value : V) (ttl : Option ℕ)
        → Maintains P (race T left rung key value ttl)
    unfolding race
    Maintains-race zero key value ttl = Maintains-write_once true key value ttl
    Maintains-race (suc left) key value ttl = search (
      maintains_rules,
      Maintains-verdict_case,
      Maintains-write_once false key value ttl,
      Maintains-race left key value ttl,
    )

    pub Maintains-take_slot :
        (address : KeyAddress) (left : ℕ) → Maintains P (take_slot T rung address left)
    unfolding take_slot
    Maintains-take_slot address left =
        Maintains-bind _ _ (Maintains-attempt _ (Maintains-evict st rung address c))
          (λ removed. Maintains-pure _)

    pub Maintains-evict_at_rung : (left : ℕ) → Maintains P (evict_at_rung T rung left)
    unfolding evict_at_rung
    Maintains-evict_at_rung zero = search maintains_rules
    Maintains-evict_at_rung (suc left) =
        let again = Maintains-evict_at_rung left in
        Maintains-bind _ _ (Maintains-nominate st rung c) (λ candidate.
          Maintains-option_case candidate _ _
            (λ address.
              Maintains-bind _ _ (Maintains-attempt _ (Maintains-reserve st address)) (λ reserved.
                Maintains-result_case reserved _ _
                  (λ granted.
                    Maintains-if granted _ _ (λ _. Maintains-take_slot address left) (λ _. again))
                  (λ _. Maintains-pure _)))
            (Maintains-pure _))

  pub Maintains-walk :
      (rungs : List TierId) (e : CacheError) (key : List ℕ) (value : V) (ttl : Option ℕ)
      → AllCache rungs
      → Maintains P (walk T rungs e key value ttl)
  unfolding walk
  Maintains-walk [] e key value ttl all = search maintains_rules
  Maintains-walk (rung ∷ rungs) e key value ttl all =
      let next : (x : CacheError) → Maintains P (walk T rungs x key value ttl) =
        λ x. Maintains-walk rungs x key value ttl all.1 in
      Maintains-bind _ _ (Maintains-gets _) (λ bound.
        Maintains-if (not bound) _ _ (λ _. next e)
          (λ _. Maintains-bind _ _ (Maintains-race rung all.0 63 key value ttl) (λ verdict.
            Maintains-verdict_case verdict _ _ _ (λ r. Maintains-pure (finished r)) next (next e))))

  pub Maintains-free_slot :
      (rungs : List TierId) (budget : ℕ) → AllCache rungs → Maintains P (free_slot T rungs budget)
  unfolding free_slot
  Maintains-free_slot [] budget all = search maintains_rules
  Maintains-free_slot (rung ∷ rungs) budget all =
      let next : (b : ℕ) → Maintains P (free_slot T rungs b) =
        λ b. Maintains-free_slot rungs b all.1 in
      search (maintains_rules, next, Maintains-evict_at_rung rung all.0) depth 14

  pub Maintains-pass :
      (again : CacheError → Task S (Unit {0})) (rung : TierId) (e : CacheError) (key : List ℕ)
      (value : V) (ttl : Option ℕ)
      → ((x : CacheError) → Maintains P (again x))
      → Maintains P (pass T again rung e key value ttl)
  unfolding pass
  Maintains-pass again rung e key value ttl k =
      Maintains-bind _ _ (Maintains-walk (descent rung) e key value ttl (descent-AllCache rung))
        (λ verdict.
          Maintains-verdict_case verdict _ _ _ Maintains-lift
            (λ x.
              Maintains-if (not (is_capacity_exhausted x)) _ _ (λ _. Maintains-raise x)
                (λ _.
                  Maintains-bind _ _
                    (Maintains-free_slot cache_ladder max_eviction_attempts cache_ladder-AllCache)
                    (λ freed. Maintains-if freed _ _ (λ _. k x) (λ _. Maintains-raise x))))
            (Maintains-raise e))

  pub Maintains-passes :
      (left : ℕ) (rung : TierId) (e : CacheError) (key : List ℕ) (value : V) (ttl : Option ℕ)
      → Maintains P (passes T left rung e key value ttl)
  unfolding passes
  Maintains-passes zero rung e key value ttl = search (Maintains-pass, maintains_rules)
  Maintains-passes (suc left) rung e key value ttl =
      Maintains-pass _ rung e key value ttl (λ x. Maintains-passes left rung x key value ttl)

  Maintains-write_by :
      (authority : TierId) (decision : PolicyDecision) (key : List ℕ) (value : V) (ttl : Option ℕ)
      → Maintains P (write_by T authority decision key value ttl)
  unfolding write_by
  Maintains-write_by authority decision key value ttl =
      search (maintains_rules, Maintains-passes) depth 14

  pub Maintains-set :
      (select : CacheOperation → CacheState → Bool → PolicyDecision) (authority : TierId)
      (key : List ℕ) (value : V) (ctx : CacheContext)
      → Maintains P (set T select authority key value ctx)
  unfolding set
  Maintains-set select authority key value ctx =
      search (maintains_rules, Maintains-observe st, Maintains-write_by) depth 14
