-- ===== src/Tests/Manager.antt =====
-- A manager over two rungs that keep one value each, and instances of the theorems on its operations.
use the_six.Base.{
  ℕ, ◌≡◌, ◌≤◌, refl, Bool, true, false, Option, none, some, List, [], ◌∷◌, arith, is_some, ◌++◌,
  ◌⊎◌,
}
use the_six.Manager.Rungs.Framed.{encode_key_apart}
use the_six.Governor.Census.{KeyCensus, census_key, register, register-encode_key}
use the_six.Base.Result.{CacheError, err, ok}
use the_six.Tier.{l1, l2, l5, as_usize, is_cache_rung}
use the_six.Tier.Interface
use the_six.Tier.Interface.{CacheTier}
use the_six.Tier.Registry.{new_registry}
use the_six.Policy.{CacheOperation, CacheState, PolicyDecision, allow}
use the_six.Entry.{ready}
use the_six.Integrity.{all_to_zero}
use the_six.Control.History.{step, puts_tier, puts_state, IsWellTyped, start, after}
use the_six.Control.Cachelito.{Cachelito, address_for, with_capacity, with_placement}
use the_six.Control.Cachelito.Lookup.{find}
use the_six.Control.History.Step.{IsConsistent, Reachable-IsConsistent}
use the_six.Manager.{Shared, World, Await, leaves, completes, drops, returns}
use the_six.Manager.Rungs.{CacheContext, encode_key, is_authenticated, has_tier, nearest_bound_rung}
use the_six.Manager.Rungs.Nearest.{nearest_bound_rung-is_nearest}
use the_six.Manager.Writes
use the_six.Manager.Moves.{promote}
use the_six.Manager.Operations.{Request, handle, writes, removes}
use the_six.Manager.Operations.Plane.{handle-IsConsistent}
use the_six.Manager.Operations.Authority.{OnAuthority, handle-OnAuthority}
use the_six.Manager.Operations.Refusals.{IsRefused, context, handle-IsRefused}
use the_six.Manager.Drops.Intents.{IsFree}
use the_six.Manager.Drops.Writes.{set-IsFree}
use the_six.Manager.Drops.Moves.{promote-IsFree}
use the_six.Manager.Returns.Commits.{IsCommitted}
use the_six.Manager.Returns.Writes.{set-IsCommitted}
use the_six.Tests.Plane.{plane, plane-IsConsistent, key}

-- A rung that keeps the last value that it was given, whatever the key.
abbrev one_value : CacheTier ℕ (Option ℕ)
one_value = record {
  backend = λ rung. Interface.in_memory;
  get = λ rung now k. (rung, ok rung);
  set = λ rung now k value ttl. (some value, ok tt);
  remove = λ rung now k. (none, ok tt);
  contains = λ rung now k. (rung, ok (is_some rung));
  eviction_candidate = λ rung now. (rung, none);
  remove_if_address = λ rung address. (rung, ok false);
}

abbrev to_l1 : CacheOperation → CacheState → Bool → PolicyDecision
to_l1 operation state known = allow l1

abbrev caller : CacheContext
caller = record { principal = 1 ∷ []; tenant = 2 ∷ []; ttl = none }

abbrev nobody : CacheContext
nobody = record { principal = []; tenant = 2 ∷ []; ttl = none }

abbrev framed : List ℕ
framed = 2 ∷ 0 ∷ 97 ∷ 98 ∷ []

key_encoded : encode_key key caller ≡ ok framed
unfolding encode_key
key_encoded = refl

-- Seven rungs, the last of which is the authority's, with a value.
abbrev shared : Shared (Option ℕ)
shared = record {
  plane = plane;
  registry = new_registry;
  rungs = none ∷ none ∷ none ∷ none ∷ none ∷ none ∷ some 5 ∷ [];
  now = 10;
  log = [];
}

-- The task is dropped at its first await, after the write has landed.
abbrev left : World (Option ℕ)
left = record {
  shared = shared;
  schedule = record { before = λ s. s; after = λ s. s; fate = leaves true } ∷ [];
}

abbrev idle : Await (Option ℕ)
idle = record { before = λ s. s; after = λ s. s; fate = completes }

set_left : (Writes.set one_value to_l1 l5 key 7 caller left).0 ≡ drops
unfolding Writes.set with_placement with_capacity new_registry allow
set_left = refl

set-IsFree_example : IsFree (
    find
      (Writes.set one_value to_l1 l5 key 7 caller left).1.shared.plane
      (address_for plane framed))
set-IsFree_example =
    set-IsFree one_value to_l1 l5 key framed 7 caller left key_encoded plane-IsConsistent
      (((λ s h. h), (λ s h. h)), tt) set_left

-- The task runs alone, to its end.
abbrev alone : World (Option ℕ)
alone = record { shared = shared; schedule = [] }

set_done : (Writes.set one_value to_l1 l5 key 7 caller alone).0 ≡ returns tt
unfolding Writes.set with_placement with_capacity new_registry allow
set_done = refl

set-IsCommitted_example :
    IsCommitted
      (address_for plane framed)
      none
      (Writes.set one_value to_l1 l5 key 7 caller alone).1.shared.plane
set-IsCommitted_example =
    set-IsCommitted one_value to_l1 l5 key framed 7 caller alone key_encoded plane-IsConsistent tt
      set_done

handle-IsConsistent_example :
    IsConsistent (handle one_value to_l1 l5 (writes key 7 caller) left).1.shared.plane
handle-IsConsistent_example =
    handle-IsConsistent one_value to_l1 l5 (writes key 7 caller) left plane-IsConsistent
      (((λ s h. h), (λ s h. h)), tt)

-- The value that the authority's rung has.
abbrev IsFive : Option ℕ → Type 0
IsFive rung = rung ≡ some 5

handle-OnAuthority_example :
    OnAuthority IsFive (handle one_value to_l1 l5 (removes key caller) left).1.shared
handle-OnAuthority_example =
    handle-OnAuthority IsFive one_value (λ rung now k h. h) (λ rung now k h. h) to_l1 l5
      (removes key caller) left refl (((λ s h. h), (λ s h. h)), tt)

abbrev strange : Request ℕ
strange = removes key nobody

stranger : is_authenticated (context strange) ≡ false
unfolding context is_authenticated
stranger = refl

handle-IsRefused_example : IsRefused left (handle one_value to_l1 l5 strange left)
handle-IsRefused_example = handle-IsRefused one_value to_l1 l5 strange left stranger

-- The entry of the key, ready on L2.
abbrev ready_plane : Cachelito
ready_plane = step (step plane (puts_tier framed l2)) (puts_state framed ready)

ready_plane-IsConsistent : IsConsistent ready_plane
ready_plane-IsConsistent = Reachable-IsConsistent ready_plane (
    after (step plane (puts_tier framed l2)) (puts_state framed ready)
      (after plane (puts_tier framed l2) (start all_to_zero 1 2) (unfold IsWellTyped in tt))
      (unfold IsWellTyped in tt))

abbrev ready_left : World (Option ℕ)
ready_left = record {
  shared = record shared { plane = ready_plane; rungs = none ∷ none ∷ some 4 ∷ [] };
  schedule =
      record { before = λ s. s; after = λ s. s; fate = completes }
      ∷ record { before = λ s. s; after = λ s. s; fate = leaves false }
      ∷ [];
}

promote_left : (promote one_value to_l1 key caller ready_left).0 ≡ drops
unfolding promote with_placement with_capacity new_registry allow step
promote_left = refl

promote-IsFree_example : IsFree (
    find
      (promote one_value to_l1 key caller ready_left).1.shared.plane
      (address_for ready_plane framed))
promote-IsFree_example =
    promote-IsFree one_value to_l1 key framed caller ready_left key_encoded ready_plane-IsConsistent
      (((λ s h. h), (λ s h. h)), (((λ s h. h), (λ s h. h)), tt)) promote_left

nearest_found : nearest_bound_rung shared l5 ≡ some l5
unfolding nearest_bound_rung
nearest_found = refl

l1_bound : has_tier shared l1 ≡ true
unfolding has_tier
l1_bound = refl

nearest_bound_rung-is_nearest_example :
    (has_tier shared l5 ≡ true)
    × (is_cache_rung l5 ≡ true)
    × (as_usize l5 ≤ as_usize l5)
    × (as_usize l1 ≤ as_usize l5)
nearest_bound_rung-is_nearest_example =
    nearest_bound_rung-is_nearest shared l5 l5 l1 nearest_found l1_bound
      (unfold as_usize in omega arith)

encode_key_apart_example : (caller.tenant ≡ caller.tenant) × (key ≡ key)
encode_key_apart_example = encode_key_apart key key caller caller framed key_encoded key_encoded

abbrev census : KeyCensus
census = record { context = caller; entries = [] }

register-encode_key_example :
    ((f : List ℕ) × (encode_key key census.context ≡ ok f)
      × (register census key ≡ (
        record census { entries = census.entries ++ census_key key f ∷ [] },
        ok (census_key key f),
      )))
    ⊎ ((e : CacheError) × (encode_key key census.context ≡ err e)
        × (register census key ≡ (census, err e)))
register-encode_key_example = register-encode_key census key
