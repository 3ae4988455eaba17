-- ===== src/Manager/Maintains/Moves.antt =====
-- A move, an invalidation and a removal keep what is stable. A move is between rungs of the ladder.
use the_six.Base.{
  ℕ, zero, suc, ◌+◌, ◌-◌, ◌≡◌, ◌≢◌, refl, Bool, true, not, ◌&&◌, ◌||◌, Option, none, some, List,
  ◌==◌, leb, arith, if◌then◌else◌,
}
use the_six.Base.Result.{CacheError, miss, tier_unavailable}
use the_six.Tier.{
  TierId, l0, l1, l2, l3, l4, l5, l6, as_usize, from_usize, is_cache_rung, authority_rung_index,
}
use the_six.Tier.Interface.{CacheTier}
use the_six.Entry.{CommitToken, move, ready}
use the_six.Policy
use the_six.Policy.{CacheOperation, CacheState, PolicyDecision, last_cache_tier}
use the_six.Telemetry
use the_six.Control.Handlers.{is_state}
use the_six.Manager.{Shared, pure}
use the_six.Manager.Rungs.{CacheContext, has_tier, on_index}
use the_six.Manager.Writes.{drop_guard}
use the_six.Manager.Moves.{
  give_up, finish_move, put_value, move_value, move_entry, move_to, promote, demote, invalidate_key,
  remove_all, remove,
}
use the_six.Manager.Maintains.{
  Stable, Maintains, Maintains-unbounded, Maintains-attempt, Maintains-guarded, Maintains-pure,
  Maintains-raise, Maintains-lift, Maintains-gets, Maintains-if, Maintains-option_case,
  Maintains-result_case, Maintains-bind, Maintains-then, maintains_rules,
}
use the_six.Manager.Maintains.Primitives.{
  Preserves-drop_guard, Maintains-prepare, Maintains-commit, Maintains-invalidate,
  Maintains-release, Maintains-abort_plainly, Maintains-remove_unbounded, Maintains-record_outcome,
  Maintains-get_at, Maintains-observed_write, Maintains-observe,
}
use the_six.Manager.Maintains.Reads.{Maintains-admit}

module _ {V S : Type 0} {T : CacheTier V S} {P : Shared S → Type 0} (st : Stable T P) where
  Maintains-give_up : (token : CommitToken) (e : CacheError) → Maintains P (give_up T token e)
  unfolding give_up
  Maintains-give_up token e =
      Maintains-bind _ _ (Maintains-abort_plainly st token e) (λ _. Maintains-pure _)

  module _ (from_tier to_tier : TierId) (cf : is_cache_rung from_tier ≡ true)
      (ct : is_cache_rung to_tier ≡ true) (key : List ℕ) (ttl : Option ℕ) where
    Maintains-finish_move :
        (token : CommitToken) → Maintains P (finish_move T from_tier to_tier key ttl token)
    unfolding finish_move
    Maintains-finish_move token =
        Maintains-bind _ _ (Maintains-attempt _ (Maintains-remove_unbounded st from_tier key cf))
          (λ removed. Maintains-then _ _ (Maintains-record_outcome st from_tier removed) (
            Maintains-bind _ _ (Maintains-attempt _ (Maintains-commit st token ttl)) (λ committed.
              Maintains-result_case committed _ _ (λ _. Maintains-pure _)
                (λ e.
                  Maintains-bind _ _
                    (Maintains-attempt _ (Maintains-remove_unbounded st to_tier key ct))
                    (λ _. Maintains-give_up token e)))))

    Maintains-put_value :
        (value : V) (token : CommitToken)
        → Maintains P (put_value T from_tier to_tier key value ttl token)
    unfolding put_value
    Maintains-put_value value token =
        Maintains-bind _ _
          (Maintains-attempt _
            (Maintains-observed_write st Telemetry.promote key to_tier value ttl ct))
          (λ stored. Maintains-then _ _ (Maintains-record_outcome st to_tier stored) (
            Maintains-result_case stored _ _ (λ _. Maintains-finish_move token)
              (Maintains-give_up token)))

    pub Maintains-move_value :
        (token : CommitToken) → Maintains P (move_value T from_tier to_tier key ttl token)
    unfolding move_value
    Maintains-move_value token =
        Maintains-bind _ _ (Maintains-gets (λ s. has_tier s from_tier && has_tier s to_tier))
          (λ bound.
            Maintains-if (not bound) _ _ (λ _. Maintains-raise tier_unavailable)
              (λ _.
                Maintains-bind _ _ (Maintains-attempt _ (Maintains-get_at st from_tier key))
                  (λ source.
                    Maintains-result_case source _ _
                      (λ copy.
                        Maintains-option_case copy _ _ (λ value. Maintains-put_value value token)
                          (Maintains-give_up token miss))
                      (Maintains-give_up token))))

    Maintains-move_entry : Maintains P (move_entry T from_tier to_tier key ttl)
    unfolding move_entry
    Maintains-move_entry = Maintains-bind _ _ (Maintains-prepare st key none to_tier move) (λ token.
        Maintains-bind _ _
          (Maintains-guarded (drop_guard token) _ (Preserves-drop_guard st token)
            (Maintains-move_value token))
          (λ done. Maintains-lift done))

  -- From a rung of the ladder above L0, and from one below L5, the next one is of the ladder.
  Maintains-move_to :
      (to from_tier : TierId) (key : List ℕ) (ttl : Option ℕ)
      → is_cache_rung from_tier ≡ true
      → is_cache_rung to ≡ true
      → Maintains P (move_to T (some to) from_tier key ttl)
  unfolding move_to
  Maintains-move_to to from_tier key ttl cf ct = Maintains-move_entry from_tier to cf ct key ttl

  Maintains-inward :
      (tier : TierId) (key : List ℕ) (ttl : Option ℕ)
      → Maintains P (
          if not (is_cache_rung tier) || as_usize tier == 0
          then pure tt
          else move_to T (from_usize (as_usize tier - 1)) tier key ttl)
  unfolding is_cache_rung as_usize from_usize
  Maintains-inward l0 key ttl = Maintains-pure _
  Maintains-inward l1 key ttl = Maintains-move_to l0 l1 key ttl refl refl
  Maintains-inward l2 key ttl = Maintains-move_to l1 l2 key ttl refl refl
  Maintains-inward l3 key ttl = Maintains-move_to l2 l3 key ttl refl refl
  Maintains-inward l4 key ttl = Maintains-move_to l3 l4 key ttl refl refl
  Maintains-inward l5 key ttl = Maintains-move_to l4 l5 key ttl refl refl
  Maintains-inward l6 key ttl = Maintains-pure _

  Maintains-outward :
      (tier : TierId) (key : List ℕ) (ttl : Option ℕ)
      → Maintains P (
          if not (is_cache_rung tier) || leb (as_usize last_cache_tier) (as_usize tier)
          then pure tt
          else move_to T (from_usize (as_usize tier + 1)) tier key ttl)
  unfolding is_cache_rung as_usize from_usize
  Maintains-outward l0 key ttl = Maintains-move_to l1 l0 key ttl refl refl
  Maintains-outward l1 key ttl = Maintains-move_to l2 l1 key ttl refl refl
  Maintains-outward l2 key ttl = Maintains-move_to l3 l2 key ttl refl refl
  Maintains-outward l3 key ttl = Maintains-move_to l4 l3 key ttl refl refl
  Maintains-outward l4 key ttl = Maintains-move_to l5 l4 key ttl refl refl
  Maintains-outward l5 key ttl = Maintains-pure _
  Maintains-outward l6 key ttl = Maintains-pure _

  Maintains-remove_all : (left idx : ℕ) (key : List ℕ) → Maintains P (remove_all T left idx key)
  unfolding remove_all
  Maintains-remove_all zero idx key = Maintains-pure _
  Maintains-remove_all (suc left) idx key =
      let rest = Maintains-remove_all left (idx + 1) key in
      Maintains-if (idx == authority_rung_index) _ _ (λ _. rest)
        (λ other.
          let away : idx ≢ authority_rung_index = λ e. ground (arith, e, other) in
          Maintains-bind _ _
            (Maintains-attempt _ (
              Maintains-unbounded (on_index idx (λ rung now. T.remove rung now key))
                (λ s. st.removed s idx key away)))
            (λ _. rest))

  module _ (select : CacheOperation → CacheState → Bool → PolicyDecision) (key : List ℕ)
      (ctx : CacheContext) where
    pub Maintains-promote : Maintains P (promote T select key ctx)
    unfolding promote
    Maintains-promote = Maintains-bind _ _ (Maintains-admit st select Policy.promote ctx) (λ _.
        Maintains-bind _ _ (Maintains-lift _) (λ framed.
          Maintains-bind _ _ (Maintains-observe st framed) (λ snapshot.
            Maintains-if (not (is_state snapshot.state ready)) _ _ (λ _. Maintains-raise miss)
              (λ _. Maintains-inward snapshot.tier framed ctx.ttl))))

    pub Maintains-demote : Maintains P (demote T select key ctx)
    unfolding demote
    Maintains-demote = Maintains-bind _ _ (Maintains-admit st select Policy.demote ctx) (λ _.
        Maintains-bind _ _ (Maintains-lift _) (λ framed.
          Maintains-bind _ _ (Maintains-observe st framed) (λ snapshot.
            Maintains-if (not (is_state snapshot.state ready)) _ _ (λ _. Maintains-raise miss)
              (λ _. Maintains-outward snapshot.tier framed ctx.ttl))))

    pub Maintains-invalidate_key : Maintains P (invalidate_key T select key ctx)
    unfolding invalidate_key
    Maintains-invalidate_key = search (maintains_rules, Maintains-admit st, Maintains-invalidate st)

    pub Maintains-remove : Maintains P (remove T select key ctx)
    unfolding remove
    Maintains-remove =
        search (maintains_rules, Maintains-admit st, Maintains-remove_all, Maintains-release st)
          depth 14
