-- ===== src/Control/Cachelito.antt =====
-- `Cachelito` of `src/control/cachelito.rs`: the sharded control plane and its operations. A call
-- locks one shard and runs to its end, so a history of the plane is a sequence of calls. A lock is
-- poisoned only by a panic under it; none of these can panic, so that arm is not modelled.
pub mod Lookup
pub mod Calls
pub mod Outcomes
use the_six.Base.{
  ℕ, ◌%◌, Bool, true, false, Option, none, some, List, ltb, get_or, set, replicate, if◌then◌else◌,
}
use the_six.Base.Result.{CacheError, Result, ok, err, miss, configuration_error, population_failed}
use the_six.Tier.{TierId}
use the_six.Entry.{EntryState, IntentKind, CommitToken}
use the_six.Integrity.{KeyAddress, Placement, default, address_of}
use the_six.Control.ControlEntry.{
  ControlEntry, set_state, set_generation, increment_generation, next_generation, set_tier, notify,
}
use the_six.Control.Handlers.{
  ControlSnapshot, acquire_entry, publish_entry, fail_entry, invalidate_entry, peek_entry,
  absent_snapshot, release_claim_entry, reserve_eviction_entry, prepare_entry, commit_entry,
  abort_entry, abort_intent_entry,
}
use the_six.Control.Shard.{Shard, new_shard, find_or_create_entry, find_entry, write_entry}

pub record Cachelito : Type 0 where
  pub shards : List Shard
  pub shard_count : ℕ
  pub capacity_per_shard : ℕ
  pub placement : Placement

abbrev pub default_shard_count : ℕ
default_shard_count = 16

abbrev pub default_capacity_per_shard : ℕ
default_capacity_per_shard = 1024

-- `Cachelito::with_shards`; `at_least_one` is its `shard_count.max(1)`.
abbrev at_least_one : ℕ → ℕ
at_least_one n = if ltb n 1 then 1 else n

-- The table of a plane with a given number of slots in each shard. `with_shards` gives the default.
unfoldable pub with_capacity : ℕ → ℕ → Cachelito
unfolding new_shard
with_capacity shard_count capacity_per_shard = record {
  shards = replicate (at_least_one shard_count) (new_shard capacity_per_shard);
  shard_count = at_least_one shard_count;
  capacity_per_shard = capacity_per_shard;
  placement = default;
}

unfoldable pub with_shards : ℕ → Cachelito
unfolding with_capacity
with_shards shard_count = with_capacity shard_count default_capacity_per_shard

unfoldable pub with_placement : Placement → Cachelito → Cachelito
with_placement placement c = record c { placement = placement }

-- `Cachelito::address_of`.
unfoldable pub address_for : Cachelito → List ℕ → KeyAddress
unfolding address_of
address_for c key = address_of key c.placement

-- `shard_for` and `shard_for_address`.
unfoldable pub shard_for : Cachelito → KeyAddress → ℕ
shard_for c address = address.placement % c.shard_count

-- `&self.shards[shard_idx]`.
unfoldable pub shard_of : Cachelito → KeyAddress → Shard
unfolding shard_for new_shard
shard_of c address = get_or c.shards (shard_for c address) (new_shard 0)

unfoldable pub put_shard : Cachelito → KeyAddress → Shard → Cachelito
unfolding shard_for
put_shard c address shard = record c { shards = set c.shards (shard_for c address) shard }

module _ {R : Type 0} where
  -- `guard.find_entry(address)`, what is returned without an entry, and the handler of one.
  unfoldable pub at_entry :
      Cachelito
      → KeyAddress
      → Result R
      → (ControlEntry → ControlEntry × Result R)
      → Cachelito × Result R
  unfolding shard_of find_entry write_entry put_shard
  at_entry c address missing handler = elim (find_entry (shard_of c address) address) [
    | none ↦ (c, missing)
    | some (idx, e) ↦
        (put_shard c address (write_entry (shard_of c address) idx (handler e).0), (handler e).1)
  ]

  -- `guard.find_or_create_entry(address)`, and the handler of the entry. A slot that was created
  -- stays, also where the handler refuses.
  unfoldable pub at_created :
      Cachelito → KeyAddress → (ControlEntry → ControlEntry × Result R) → Cachelito × Result R
  unfolding shard_of find_or_create_entry write_entry put_shard
  at_created c address handler = elim (find_or_create_entry (shard_of c address) address) [
    | err _ ↦ (c, err configuration_error)
    | ok (shard, idx, e) ↦
        (put_shard c address (write_entry shard idx (handler e).0), (handler e).1)
  ]

-- A handler that refuses leaves the entry as it was.
abbrev pub settle : ControlEntry → Result ControlEntry → ControlEntry × Result (Unit {0})
settle e (ok e') = (e', ok tt)
settle e (err x) = (e, err x)

abbrev pub settle_with :
    {R : Type 0} → ControlEntry → Result (ControlEntry × R) → ControlEntry × Result R
settle_with e (ok (e', r)) = (e', ok r)
settle_with e (err x) = (e, err x)

-- A handler that cannot fail.
abbrev pub done : ControlEntry → ControlEntry × Result (Unit {0})
done e = (e, ok tt)

abbrev pub report : {R : Type 0} → ControlEntry × R → ControlEntry × Result R
report (e, r) = (e, ok r)

module _ (c : Cachelito) (now : ℕ) where
  unfoldable pub acquire : List ℕ → TierId → Cachelito × Result ControlSnapshot
  unfolding address_for at_created acquire_entry
  acquire key tier = at_created c (address_for c key) (λ e. report (acquire_entry now tier e))

  unfoldable pub publish : List ℕ → ℕ → TierId → Option ℕ → Cachelito × Result (Unit {0})
  unfolding address_for at_entry publish_entry
  publish key expected_generation tier ttl =
      at_entry c (address_for c key) (err miss)
        (λ e. settle e (publish_entry now expected_generation tier ttl e))

  unfoldable pub peek : List ℕ → Result ControlSnapshot
  unfolding address_for shard_of find_entry peek_entry absent_snapshot
  peek key = elim (find_entry (shard_of c (address_for c key)) (address_for c key)) [
    | none ↦ ok absent_snapshot
    | some (idx, e) ↦ ok (peek_entry now e)
  ]

  unfoldable pub prepare : List ℕ → Option ℕ → TierId → IntentKind → Cachelito × Result CommitToken
  unfolding address_for at_created prepare_entry
  prepare key expected_generation target_tier kind =
      at_created c (address_for c key)
        (λ e. settle_with e (prepare_entry now expected_generation target_tier kind e))

  unfoldable pub commit : CommitToken → Option ℕ → Cachelito × Result (Unit {0})
  unfolding at_entry commit_entry
  commit token ttl =
      at_entry c token.address (err miss) (λ e. settle e (commit_entry now token ttl e))

module _ (c : Cachelito) where
  unfoldable pub fail_with_error : List ℕ → CacheError → Cachelito × Result (Unit {0})
  unfolding address_for at_entry fail_entry
  fail_with_error key error =
      at_entry c (address_for c key) (err miss) (λ e. done (fail_entry error e))

  unfoldable pub fail : List ℕ → Cachelito × Result (Unit {0})
  unfolding fail_with_error
  fail key = fail_with_error key population_failed

  unfoldable pub release : List ℕ → Cachelito × Result (Unit {0})
  unfolding address_for at_entry invalidate_entry
  release key = at_entry c (address_for c key) (ok tt) (λ e. done (invalidate_entry e))

  unfoldable pub invalidate : List ℕ → Cachelito × Result (Unit {0})
  unfolding address_for at_entry invalidate_entry
  invalidate key = at_entry c (address_for c key) (ok tt) (λ e. done (invalidate_entry e))

  -- The setters of the plane; each creates the slot.
  unfoldable pub put_generation : List ℕ → ℕ → Cachelito × Result (Unit {0})
  unfolding address_for at_created set_generation
  put_generation key generation =
      at_created c (address_for c key) (λ e. done (set_generation generation e))

  unfoldable pub put_tier : List ℕ → TierId → Cachelito × Result (Unit {0})
  unfolding address_for at_created set_tier
  put_tier key tier = at_created c (address_for c key) (λ e. done (set_tier tier e))

  unfoldable pub put_state : List ℕ → EntryState → Cachelito × Result (Unit {0})
  unfolding address_for at_created set_state notify
  put_state key state = at_created c (address_for c key) (λ e. done (notify (set_state state e)))

  unfoldable pub bump_generation : List ℕ → Cachelito × Result ℕ
  unfolding address_for at_created increment_generation next_generation notify
  bump_generation key =
      at_created c (address_for c key)
        (λ e. (notify (increment_generation e), ok (next_generation e.generation)))

  unfoldable pub release_population_claim : KeyAddress → Cachelito × Result Bool
  unfolding at_entry release_claim_entry
  release_population_claim address =
      at_entry c address (ok false) (λ e. report (release_claim_entry e))

  unfoldable pub reserve_eviction : KeyAddress → Cachelito × Result Bool
  unfolding at_entry reserve_eviction_entry
  reserve_eviction address = at_entry c address (ok false) (λ e. report (reserve_eviction_entry e))

  unfoldable pub abort_inner : CommitToken → CacheError → Bool → Cachelito × Result (Unit {0})
  unfolding at_entry abort_entry
  abort_inner token error proven_clean =
      at_entry c token.address (ok tt) (λ e. done (abort_entry error proven_clean e))

  unfoldable pub abort : CommitToken → CacheError → Cachelito × Result (Unit {0})
  unfolding abort_inner
  abort token error = abort_inner token error false

  unfoldable pub abort_proven_clean : CommitToken → CacheError → Cachelito × Result (Unit {0})
  unfolding abort_inner
  abort_proven_clean token error = abort_inner token error true

  unfoldable pub abort_intent_by_address : KeyAddress → CacheError → Cachelito × Result Bool
  unfolding at_entry abort_intent_entry
  abort_intent_by_address address error =
      at_entry c address (ok false) (λ e. report (abort_intent_entry error e))
