-- ===== src/Control/History.antt =====
-- Histories of the plane: the calls of `src/control/cachelito.rs` that change state, and what a
-- sequence of them reaches. Each caller's calls interleave with the others' in one such sequence.
pub mod Effect
pub mod Step
pub mod Generations
use the_six.Base.{
  ℕ, ◌<◌, Bool, true, false, ◌&&◌, Option, none, some, List, [], ◌∷◌, if◌then◌else◌, u64_mod,
}
use mathlib.Core.Option
use the_six.Base.Result.{CacheError}
use the_six.Tier.{TierId}
use the_six.Entry.{EntryState, IntentKind, CommitToken}
use the_six.Integrity.{KeyAddress, Placement, same_address}
use the_six.Control.ControlEntry.{
  ControlEntry, set_state, set_generation, increment_generation, set_tier, notify,
}
use the_six.Control.Handlers.{
  acquire_entry, publish_entry, fail_entry, invalidate_entry, release_claim_entry,
  reserve_eviction_entry, prepare_entry, commit_entry, abort_entry, abort_intent_entry, sweep_entry,
}
use the_six.Control.Cachelito.{
  Cachelito, with_capacity, with_placement, address_for, settle, settle_with, acquire, publish,
  prepare, commit, fail_with_error, release, invalidate, put_generation, put_tier, put_state,
  bump_generation, release_population_claim, reserve_eviction, abort_inner, abort_intent_by_address,
}
use the_six.Control.Cachelito.Calls.{or_new}
use the_six.Control.Maintenance.{sweep_expired}

-- A call, with the clock's reading where it reads the clock.
pub data Call : Type 0 where
  acquires : ℕ → List ℕ → TierId → Call
  publishes : ℕ → List ℕ → ℕ → TierId → Option ℕ → Call
  prepares : ℕ → List ℕ → Option ℕ → TierId → IntentKind → Call
  commits : ℕ → CommitToken → Option ℕ → Call
  aborts : CommitToken → CacheError → Bool → Call
  fails : List ℕ → CacheError → Call
  releases : List ℕ → Call
  invalidates : List ℕ → Call
  puts_generation : List ℕ → ℕ → Call
  puts_tier : List ℕ → TierId → Call
  puts_state : List ℕ → EntryState → Call
  bumps : List ℕ → Call
  releases_claim : KeyAddress → Call
  reserves : KeyAddress → Call
  aborts_intent : KeyAddress → CacheError → Call
  sweeps : ℕ → Call

unfoldable pub step : Cachelito → Call → Cachelito
unfolding acquire publish prepare commit abort_inner fail_with_error release invalidate
    put_generation put_tier put_state bump_generation release_population_claim reserve_eviction
    abort_intent_by_address sweep_expired
step c (acquires now key tier) = (acquire c now key tier).0
step c (publishes now key generation tier ttl) = (publish c now key generation tier ttl).0
step c (prepares now key generation tier kind) = (prepare c now key generation tier kind).0
step c (commits now token ttl) = (commit c now token ttl).0
step c (aborts token error proven_clean) = (abort_inner c token error proven_clean).0
step c (fails key error) = (fail_with_error c key error).0
step c (releases key) = (release c key).0
step c (invalidates key) = (invalidate c key).0
step c (puts_generation key generation) = (put_generation c key generation).0
step c (puts_tier key tier) = (put_tier c key tier).0
step c (puts_state key value) = (put_state c key value).0
step c (bumps key) = (bump_generation c key).0
step c (releases_claim address) = (release_population_claim c address).0
step c (reserves address) = (reserve_eviction c address).0
step c (aborts_intent address error) = (abort_intent_by_address c address error).0
step c (sweeps now) = (sweep_expired now c).0

unfoldable pub run : Cachelito → List Call → Cachelito
unfolding step
run c [] = c
run c (call ∷ calls) = run (step c call) calls

-- The address that a call is about; a sweep is about every address.
unfoldable pub target : Cachelito → Call → Option KeyAddress
unfolding address_for
target c (acquires now key tier) = some (address_for c key)
target c (publishes now key generation tier ttl) = some (address_for c key)
target c (prepares now key generation tier kind) = some (address_for c key)
target c (commits now token ttl) = some token.address
target c (aborts token error proven_clean) = some token.address
target c (fails key error) = some (address_for c key)
target c (releases key) = some (address_for c key)
target c (invalidates key) = some (address_for c key)
target c (puts_generation key generation) = some (address_for c key)
target c (puts_tier key tier) = some (address_for c key)
target c (puts_state key value) = some (address_for c key)
target c (bumps key) = some (address_for c key)
target c (releases_claim address) = some address
target c (reserves address) = some address
target c (aborts_intent address error) = some address
target c (sweeps now) = none

-- Whether a call creates the entry that it does not find.
unfoldable pub creates : Call → Bool
creates (acquires now key tier) = true
creates (prepares now key generation tier kind) = true
creates (puts_generation key generation) = true
creates (puts_tier key tier) = true
creates (puts_state key value) = true
creates (bumps key) = true
creates _ = false

-- What a call does to an entry that it is about.
unfoldable pub effect : Call → ControlEntry → ControlEntry
unfolding acquire_entry publish_entry prepare_entry commit_entry abort_entry fail_entry
    invalidate_entry set_generation set_tier set_state notify increment_generation
    release_claim_entry reserve_eviction_entry abort_intent_entry sweep_entry
effect (acquires now key tier) e = (acquire_entry now tier e).0
effect (publishes now key generation tier ttl) e =
    (settle e (publish_entry now generation tier ttl e)).0
effect (prepares now key generation tier kind) e =
    (settle_with e (prepare_entry now generation tier kind e)).0
effect (commits now token ttl) e = (settle e (commit_entry now token ttl e)).0
effect (aborts token error proven_clean) e = abort_entry error proven_clean e
effect (fails key error) e = fail_entry error e
effect (releases key) e = invalidate_entry e
effect (invalidates key) e = invalidate_entry e
effect (puts_generation key generation) e = set_generation generation e
effect (puts_tier key tier) e = set_tier tier e
effect (puts_state key value) e = notify (set_state value e)
effect (bumps key) e = notify (increment_generation e)
effect (releases_claim address) e = (release_claim_entry e).0
effect (reserves address) e = (reserve_eviction_entry e).0
effect (aborts_intent address error) e = (abort_intent_entry error e).0
effect (sweeps now) e = (sweep_entry now e).0

-- The abstract plane: a partial map from addresses to entries. `room` says whether an entry that is
-- missing can be created.
unfoldable pub apply :
    Call
    → Option KeyAddress
    → Bool
    → (KeyAddress → Option ControlEntry)
    → KeyAddress
    → Option ControlEntry
unfolding effect creates
apply call none room entries b = Option.map (effect call) (entries b)
apply call (some a) room entries b =
    if creates call
    then (if room && same_address a b then some (effect call (or_new a (entries a))) else entries b)
    else (if same_address a b then Option.map (effect call) (entries a) else entries b)

-- A caller passes a `u64` for a generation.
unfoldable pub IsWellTyped : Call → Type 0
IsWellTyped (puts_generation key generation) = generation < u64_mod
IsWellTyped _ = Unit {0}

-- The planes that a history reaches from an empty one.
pub data Reachable : Cachelito → Type 0 where
  start :
      (placement : Placement) (n k : ℕ) → Reachable (with_placement placement (with_capacity n k))
  after : (c : Cachelito) (call : Call) → Reachable c → IsWellTyped call → Reachable (step c call)
