-- ===== src/Manager/Drops/Moves.antt =====
-- A promotion and a demotion of `src/manager.rs` that are dropped.
use the_six.Base.{
  ℕ, ◌+◌, ◌-◌, ◌≡◌, refl, Bool, true, not, ◌||◌, ◌==◌, leb, Option, none, some, List, if◌then◌else◌,
}
use the_six.Base.Result.{ok, miss}
use the_six.Tier.{TierId, l0, l1, l2, l3, l4, l5, l6, as_usize, from_usize, is_cache_rung}
use the_six.Tier.Interface.{CacheTier}
use the_six.Integrity.{KeyAddress}
use the_six.Entry.{move, ready}
use the_six.Policy
use the_six.Policy.{CacheOperation, CacheState, PolicyDecision, last_cache_tier}
use the_six.Control.Cachelito.{address_for}
use the_six.Control.Cachelito.Lookup.{find}
use the_six.Control.Handlers.{is_state}
use the_six.Control.History.Step.{IsConsistent}
use the_six.Manager.{World, drops, pure}
use the_six.Manager.Rungs.{CacheContext, encode_key}
use the_six.Manager.Reads.{admit}
use the_six.Manager.Writes.{drop_guard}
use the_six.Manager.Moves.{move_value, move_entry, move_to, promote, demote}
use the_six.Manager.Maintains.{IsFair, Maintains-guarded, Maintains-lift}
use the_six.Manager.Maintains.Primitives.{Maintains-observe, Preserves-drop_guard}
use the_six.Manager.Maintains.Reads.{Maintains-admit}
use the_six.Manager.Maintains.Moves.{Maintains-move_value}
use the_six.Manager.Drops.{
  Clears, Clears-bind, Clears-pure, Clears-if, Clears-lift, Clears-raise, Clears-ok_bind,
  clears_rules,
}
use the_six.Manager.Drops.Intents.{IsFree, At, Free, At-Stable, Clears-prepare, Clears-drop_guard}
use the_six.Manager.Drops.Writes.{Clears-observe}

module _ {V S : Type 0} (T : CacheTier V S) (key : List ℕ) (a : KeyAddress) (ttl : Option ℕ) where
  Clears-move_to :
      (to from_tier : TierId)
      → is_cache_rung from_tier ≡ true
      → is_cache_rung to ≡ true
      → Clears (At key a) (Free key a) (move_to T (some to) from_tier key ttl)
  unfolding move_to move_entry
  Clears-move_to to from_tier cf ct =
      let st = At-Stable key a T in
      Clears-prepare key a T none to move _ (λ token same.
        Clears-bind _ _
          (Maintains-guarded (drop_guard token) _ (Preserves-drop_guard st token)
            (Maintains-move_value st from_tier to cf ct key ttl token))
          (Clears-drop_guard key a token (move_value T from_tier to key ttl token) same
            (Maintains-move_value st from_tier to cf ct key ttl token))
          (λ done. Clears-lift done))

  Clears-inward :
      (tier : TierId)
      → Clears (At key a) (Free key a) (
          if not (is_cache_rung tier) || as_usize tier == 0
          then pure tt
          else move_to T (from_usize (as_usize tier - 1)) tier key ttl)
  unfolding is_cache_rung as_usize from_usize
  Clears-inward l0 = Clears-pure _
  Clears-inward l1 = Clears-move_to l0 l1 refl refl
  Clears-inward l2 = Clears-move_to l1 l2 refl refl
  Clears-inward l3 = Clears-move_to l2 l3 refl refl
  Clears-inward l4 = Clears-move_to l3 l4 refl refl
  Clears-inward l5 = Clears-move_to l4 l5 refl refl
  Clears-inward l6 = Clears-pure _

  Clears-outward :
      (tier : TierId)
      → Clears (At key a) (Free key a) (
          if not (is_cache_rung tier) || leb (as_usize last_cache_tier) (as_usize tier)
          then pure tt
          else move_to T (from_usize (as_usize tier + 1)) tier key ttl)
  unfolding is_cache_rung as_usize from_usize
  Clears-outward l0 = Clears-move_to l1 l0 refl refl
  Clears-outward l1 = Clears-move_to l2 l1 refl refl
  Clears-outward l2 = Clears-move_to l3 l2 refl refl
  Clears-outward l3 = Clears-move_to l4 l3 refl refl
  Clears-outward l4 = Clears-move_to l5 l4 refl refl
  Clears-outward l5 = Clears-pure _
  Clears-outward l6 = Clears-pure _

module _ {V S : Type 0} (T : CacheTier V S)
    (select : CacheOperation → CacheState → Bool → PolicyDecision) (key framed : List ℕ)
    (ctx : CacheContext) (a : KeyAddress) (encoded : encode_key key ctx ≡ ok framed) where
  Clears-admit :
      (op : CacheOperation) → Clears (At framed a) (Free framed a) (admit T select op ctx)
  unfolding admit
  Clears-admit op = search (clears_rules, Maintains-lift)

  Clears-promote : Clears (At framed a) (Free framed a) (promote T select key ctx)
  unfolding promote
  Clears-promote =
      let st = At-Stable framed a T in
      Clears-bind _ _ (Maintains-admit st select Policy.promote ctx) (Clears-admit Policy.promote)
        (λ _. Clears-ok_bind (encode_key key ctx) framed _ encoded (
          Clears-bind _ _ (Maintains-observe st framed) (Clears-observe framed) (λ snapshot.
            Clears-if (not (is_state snapshot.state ready)) _ _ (Clears-raise miss)
              (Clears-inward T framed a ctx.ttl snapshot.tier))))

  Clears-demote : Clears (At framed a) (Free framed a) (demote T select key ctx)
  unfolding demote
  Clears-demote =
      let st = At-Stable framed a T in
      Clears-bind _ _ (Maintains-admit st select Policy.demote ctx) (Clears-admit Policy.demote)
        (λ _. Clears-ok_bind (encode_key key ctx) framed _ encoded (
          Clears-bind _ _ (Maintains-observe st framed) (Clears-observe framed) (λ snapshot.
            Clears-if (not (is_state snapshot.state ready)) _ _ (Clears-raise miss)
              (Clears-outward T framed a ctx.ttl snapshot.tier))))

module _ {V S : Type 0} (T : CacheTier V S)
    (select : CacheOperation → CacheState → Bool → PolicyDecision) (key framed : List ℕ)
    (ctx : CacheContext) (w : World S) (encoded : encode_key key ctx ≡ ok framed)
    (h : IsConsistent w.shared.plane)
    (fair : IsFair (At framed (address_for w.shared.plane framed)) w.schedule) where
  -- A promotion that is dropped leaves no intent at the address of its key, under any schedule of other
  -- tasks that keeps the plane consistent and the address of the key the same.
  pub promote-IsFree :
      (promote T select key ctx w).0 ≡ drops
      → IsFree
          (find (promote T select key ctx w).1.shared.plane (address_for w.shared.plane framed))
  promote-IsFree =
      (Clears-promote T select key framed ctx (address_for w.shared.plane framed) encoded).at w
        (h, refl) fair

  -- And so does a demotion.
  demote-IsFree :
      (demote T select key ctx w).0 ≡ drops
      → IsFree (find (demote T select key ctx w).1.shared.plane (address_for w.shared.plane framed))
  demote-IsFree =
      (Clears-demote T select key framed ctx (address_for w.shared.plane framed) encoded).at w
        (h, refl) fair
