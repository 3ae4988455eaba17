-- ===== src/Manager/Maintains/Reads.antt =====
-- The reads of the manager keep what is stable.
use the_six.Base.{ℕ, not, ◌&&◌, Bool, List, [], ◌∷◌}
use the_six.Base.Result.{CacheError}
use the_six.Tier.{TierId}
use the_six.Tier.Registry.{is_tier_open}
use the_six.Tier.Interface.{CacheTier}
use the_six.Entry.{EntryState, absent, ready, stale, in_flight, prepared, failed}
use the_six.Policy.{CacheOperation, CacheState, PolicyDecision}
use the_six.Control.Handlers.{ControlSnapshot}
use the_six.Manager.{Shared}
use the_six.Manager.Rungs.{CacheContext, has_tier}
use the_six.Manager.Reads.{
  read_ready, read_settled, get_by, found_copy, scan_fallback, try_fallback_tier, get, admit,
  exists,
}
use the_six.Manager.Maintains.{
  Stable, Maintains, Maintains-bind, Maintains-gets, Maintains-if, Maintains-attempt,
  Maintains-result_case, Maintains-option_case, maintains_rules,
}
use the_six.Manager.Maintains.Primitives.{
  Maintains-mark_stale, Maintains-get_at, Maintains-contains_at, Maintains-emit,
  Maintains-record_outcome, Maintains-observed_read, Maintains-observe, Maintains-wait,
  Maintains-refuse,
}

module _ {V S : Type 0} {T : CacheTier V S} {P : Shared S → Type 0} (st : Stable T P) where
  Maintains-read_ready :
      (key : List ℕ) (snapshot : ControlSnapshot) (started : ℕ)
      → Maintains P (read_ready T key snapshot started)
  unfolding read_ready
  Maintains-read_ready key snapshot started =
      search
        (
          maintains_rules,
          Maintains-refuse st,
          Maintains-observed_read st,
          Maintains-record_outcome st,
          Maintains-observe st,
        )
        depth 14

  Maintains-read_settled : (key : List ℕ) → Maintains P (read_settled T key)
  unfolding read_settled
  Maintains-read_settled key =
      search
        (
          maintains_rules,
          Maintains-wait st,
          Maintains-observed_read st,
          Maintains-record_outcome st,
          Maintains-observe st,
        )
        depth 14

  Maintains-get_by :
      (state : EntryState) (key : List ℕ) (snapshot : ControlSnapshot) (started : ℕ)
      → Maintains P (get_by T state key snapshot started)
  unfolding get_by
  Maintains-get_by ready key snapshot started =
      search (maintains_rules, Maintains-read_ready, Maintains-mark_stale st, Maintains-refuse st)
  Maintains-get_by in_flight key snapshot started =
      search (maintains_rules, Maintains-read_settled, Maintains-refuse st)
  Maintains-get_by prepared key snapshot started =
      search (maintains_rules, Maintains-read_settled, Maintains-refuse st)
  Maintains-get_by absent key snapshot started = search (Maintains-refuse st)
  Maintains-get_by stale key snapshot started = search (Maintains-refuse st)
  Maintains-get_by failed key snapshot started = search (Maintains-refuse st)

  Maintains-found_copy :
      (key : List ℕ) (cause : CacheError) (tier : TierId) (v : V)
      → Maintains P (found_copy T key cause tier v)
  unfolding found_copy
  Maintains-found_copy key cause tier v = search (maintains_rules, Maintains-emit st)

  Maintains-scan_fallback :
      (key : List ℕ) (cause : CacheError) (tiers : List TierId)
      → Maintains P (scan_fallback T key cause tiers)
  unfolding scan_fallback
  Maintains-scan_fallback key cause [] = search maintains_rules
  Maintains-scan_fallback key cause (tier ∷ tiers) =
      let rest = Maintains-scan_fallback key cause tiers in
      Maintains-bind _ _
        (Maintains-gets (λ s. has_tier s tier && not (is_tier_open s.registry tier)))
        (λ usable.
          Maintains-if (not usable) _ _ (λ _. rest)
            (λ _. Maintains-bind _ _ (Maintains-attempt _ (Maintains-get_at st tier key)) (λ result.
              Maintains-result_case result _ _
                (λ copy. Maintains-option_case copy _ _ (Maintains-found_copy key cause tier) rest)
                (λ _. rest))))

  pub Maintains-try_fallback_tier :
      (key : List ℕ) (ctx : CacheContext) (cause : CacheError)
      → Maintains P (try_fallback_tier T key ctx cause)
  unfolding try_fallback_tier
  Maintains-try_fallback_tier key ctx cause = search (maintains_rules, Maintains-scan_fallback)

  module _ (select : CacheOperation → CacheState → Bool → PolicyDecision) where
    pub Maintains-get : (key : List ℕ) (ctx : CacheContext) → Maintains P (get T select key ctx)
    unfolding get
    Maintains-get key ctx =
        search (maintains_rules, Maintains-observe st, Maintains-get_by, Maintains-refuse st) depth
          14

    pub Maintains-admit :
        (operation : CacheOperation) (ctx : CacheContext)
        → Maintains P (admit T select operation ctx)
    unfolding admit
    Maintains-admit operation ctx = search maintains_rules

    pub Maintains-exists :
        (key : List ℕ) (ctx : CacheContext) → Maintains P (exists T select key ctx)
    unfolding exists
    Maintains-exists key ctx =
        search (maintains_rules, Maintains-admit, Maintains-observe st, Maintains-contains_at st)
          depth 14
