-- ===== src/Control/Handlers.antt =====
-- What each operation of `Cachelito` does to the one entry that it locks. `now` is what the clock
-- reads while the shard's lock is held; one reading stands for all that a handler makes.
pub mod Sound
pub mod Address
use the_six.Base.{
  ℕ, Bool, true, false, not, ◌&&◌, ◌||◌, Option, none, some, ◌==◌, if◌then◌else◌, is_some,
}
use the_six.Base.Result.{CacheError, Result, ok, err, stale_generation}
use the_six.Tier.{TierId, l0, as_u8, from_index, is_authority_rung}
use the_six.Entry.{
  EntryState, absent, ready, stale, in_flight, prepared, failed, state_code, IntentKind,
  CommitIntent, CommitToken, expired_by, generation_is_stale,
}
use the_six.Control.ControlEntry.{
  ControlEntry, state_of, set_state, set_generation, next_generation, increment_generation, tier_of,
  set_tier, set_population_owner, population_timestamp_of, set_population_timestamp, notify,
  intent_prev_state_of, set_intent_prev_state, set_intent, intent_of, clear_intent, set_ttl, ttl_of,
  is_expired, set_last_error, last_error_of, instant_to_nanos,
}

-- `==` on entry states.
unfoldable pub is_state : EntryState → EntryState → Bool
unfolding state_code
is_state a b = state_code a == state_code b

-- `ControlSnapshot`, without the handle on the entry's `Notify`.
pub record ControlSnapshot : Type 0 where
  pub state : EntryState
  pub generation : ℕ
  pub tier : TierId
  pub population_owner : Bool
  pub population_timestamp : Option ℕ
  pub ttl : Option ℕ
  pub expired : Bool
  pub last_error : Option CacheError
  pub intent : Option CommitIntent

unfoldable pub snapshot_of :
    ℕ → ControlEntry → EntryState → ℕ → TierId → Bool → Option ℕ → ControlSnapshot
unfolding ttl_of is_expired last_error_of intent_of
snapshot_of now e state generation tier population_owner population_timestamp = record {
  state = state;
  generation = generation;
  tier = tier;
  population_owner = population_owner;
  population_timestamp = population_timestamp;
  ttl = ttl_of e;
  expired = is_expired now e;
  last_error = last_error_of e;
  intent = intent_of e;
}

-- The claim that `acquire` makes when its compare-and-exchange succeeds. Its `current_gen.0 + 1` wraps,
-- as it does in a release build.
unfoldable pub claim_entry : ℕ → TierId → ControlEntry → ControlEntry
unfolding set_state set_population_owner set_generation next_generation set_tier set_last_error
    set_population_timestamp
claim_entry now tier e = set_population_timestamp (some now) (
    set_last_error none (
      set_tier tier (
        set_generation (next_generation e.generation)
          (set_population_owner true (set_state in_flight e)))))

-- `compare_exchange(expected_current, InFlight)`, and what follows it on success and on failure.
unfoldable pub try_claim : ℕ → TierId → ControlEntry → ControlEntry × ControlSnapshot
unfolding state_code state_of claim_entry snapshot_of next_generation tier_of
try_claim now tier e =
    if e.state == state_code (state_of e)
    then (
      claim_entry now tier e,
      snapshot_of now (claim_entry now tier e) in_flight (next_generation e.generation) tier true
          (some now),
    )
    else (e, snapshot_of now e (state_of e) e.generation (tier_of e) e.population_owner none)

-- The arm of `acquire` that observes an entry which cannot be claimed.
unfoldable pub observe_entry : ℕ → ControlEntry → ControlEntry × ControlSnapshot
unfolding snapshot_of state_of tier_of
observe_entry now e = (e, snapshot_of now e (state_of e) e.generation (tier_of e) false none)

unfoldable pub acquire_entry : ℕ → TierId → ControlEntry → ControlEntry × ControlSnapshot
unfolding state_of try_claim observe_entry
acquire_entry now tier e = elim (state_of e) [
  | absent ↦ try_claim now tier e
  | failed ↦ try_claim now tier e
  | stale ↦ try_claim now tier e
  | prepared ↦ observe_entry now e
  | in_flight ↦ observe_entry now e
  | ready ↦ observe_entry now e
]

unfoldable pub publish_entry : ℕ → ℕ → TierId → Option ℕ → ControlEntry → Result ControlEntry
unfolding generation_is_stale set_state set_tier set_ttl set_last_error set_population_owner
    set_population_timestamp notify
publish_entry now expected_generation tier ttl e =
    if generation_is_stale expected_generation e.generation
      || not (expected_generation == e.generation)
    then err stale_generation
    else ok (
        notify (
          set_population_timestamp (some now) (
            set_population_owner false
              (set_last_error none (set_ttl ttl (set_tier tier (set_state ready e)))))))

-- `fail_with_error`.
unfoldable pub fail_entry : CacheError → ControlEntry → ControlEntry
unfolding set_state set_last_error set_population_owner set_population_timestamp notify
fail_entry error e = notify (
    set_population_timestamp none
      (set_population_owner false (set_last_error (some error) (set_state failed e))))

-- `release` and `invalidate` have one body.
unfoldable pub invalidate_entry : ControlEntry → ControlEntry
unfolding increment_generation set_state set_population_owner set_population_timestamp set_ttl
    set_last_error notify
invalidate_entry e = notify (
    set_last_error none (
      set_ttl none (
        set_population_timestamp none
          (set_population_owner false (set_state absent (increment_generation e))))))

unfoldable pub peek_entry : ℕ → ControlEntry → ControlSnapshot
unfolding snapshot_of state_of tier_of population_timestamp_of
peek_entry now e =
    snapshot_of now e (state_of e) e.generation (tier_of e) e.population_owner
      (population_timestamp_of e)

-- What `peek` reports for a key that was never written.
unfoldable pub absent_snapshot : ControlSnapshot
absent_snapshot = record {
  state = absent;
  generation = 0;
  tier = l0;
  population_owner = false;
  population_timestamp = none;
  ttl = none;
  expired = false;
  last_error = none;
  intent = none;
}

-- The entry after `release_population_claim`, and whether a claim was released.
unfoldable pub release_claim_entry : ControlEntry → ControlEntry × Bool
unfolding is_state state_of set_state increment_generation set_population_owner notify
release_claim_entry e =
    if not (is_state (state_of e) prepared) || not e.population_owner
    then (e, false)
    else (notify (set_population_owner false (increment_generation (set_state failed e))), true)

unfoldable pub reserve_eviction_entry : ControlEntry → ControlEntry × Bool
unfolding is_state state_of intent_of increment_generation set_state notify
reserve_eviction_entry e =
    if not (is_state (state_of e) ready) || e.population_owner
    then (e, false)
    else if is_some (intent_of e)
    then (e, false)
    else (notify (set_state stale (increment_generation e)), true)

-- The intent that `prepare` records.
unfoldable pub intent_to_prepare : ℕ → TierId → IntentKind → ControlEntry → CommitIntent
unfolding as_u8 instant_to_nanos
intent_to_prepare now target_tier kind e = record {
  kind = kind;
  target_tier = as_u8 target_tier;
  generation = e.generation;
  started_nanos = instant_to_nanos now;
}

-- Whether the caller's expected generation, if it has one, is another than the entry's.
unfoldable pub moved_since : Option ℕ → ControlEntry → Bool
moved_since none e = false
moved_since (some expected) e = not (expected == e.generation)

-- The token carries the address of the entry, which is the one that the call looked up.
unfoldable pub prepare_entry :
    ℕ → Option ℕ → TierId → IntentKind → ControlEntry → Result (ControlEntry × CommitToken)
unfolding moved_since intent_to_prepare set_intent_prev_state state_of set_intent set_state
    set_population_owner as_u8
prepare_entry now expected_generation target_tier kind e =
    if moved_since expected_generation e
    then err stale_generation
    else ok (
      set_population_owner true (
          set_state prepared (
            set_intent (intent_to_prepare now target_tier kind e)
              (set_intent_prev_state (state_of e) e))),
      record {
        address = e.address;
        generation = e.generation;
        kind = kind;
        target_tier = as_u8 target_tier;
      },
    )

-- `if let Some(tier) = TierId::from_index(token.target_tier.0) { entry.set_tier(tier) }`.
unfoldable pub set_target_tier : CommitToken → ControlEntry → ControlEntry
unfolding from_index set_tier
set_target_tier token e = elim (from_index token.target_tier) [
  | none ↦ e
  | some tier ↦ set_tier tier e
]

unfoldable pub commit_entry : ℕ → CommitToken → Option ℕ → ControlEntry → Result ControlEntry
unfolding expired_by is_state state_of set_state set_target_tier set_ttl set_intent_prev_state
    set_population_owner clear_intent set_population_timestamp set_last_error notify
commit_entry now token ttl e =
    if expired_by token e.generation || not (is_state (state_of e) prepared)
    then err stale_generation
    else ok (
        notify (
          set_last_error none (
            set_population_timestamp (some now) (
              clear_intent (
                set_population_owner false (
                  set_intent_prev_state ready
                    (set_ttl ttl (set_target_tier token (set_state ready e)))))))))

-- The end that every abort shares.
unfoldable pub drop_intent : CacheError → ControlEntry → ControlEntry
unfolding set_population_owner clear_intent set_last_error notify
drop_intent error e =
    notify (set_last_error (some error) (clear_intent (set_population_owner false e)))

-- `abort_inner`; `proven_clean` is false for `abort` and true for `abort_proven_clean`.
unfoldable pub abort_entry : CacheError → Bool → ControlEntry → ControlEntry
unfolding is_state state_of set_state intent_prev_state_of increment_generation drop_intent
abort_entry error proven_clean e =
    if not (is_state (state_of e) prepared)
    then e
    else drop_intent error (
        if proven_clean
        then set_state (intent_prev_state_of e) e
        else increment_generation (set_state failed e))

-- `abort_intent_by_address`: the entry after it, and whether an intent was cleared.
unfoldable pub abort_intent_entry : CacheError → ControlEntry → ControlEntry × Bool
unfolding intent_of is_state state_of set_state increment_generation drop_intent
abort_intent_entry error e =
    if not (is_some (intent_of e))
    then (e, false)
    else if not (is_state (state_of e) prepared)
    then (e, false)
    else (drop_intent error (increment_generation (set_state failed e)), true)

-- `sweep_expired` on one entry, and whether it was demoted.
unfoldable pub sweep_entry : ℕ → ControlEntry → ControlEntry × Bool
unfolding is_authority_rung tier_of is_state state_of is_expired set_state notify
sweep_entry now e =
    if is_authority_rung (tier_of e)
    then (e, false)
    else if is_state (state_of e) ready && is_expired now e
    then (notify (set_state stale e), true)
    else (e, false)
