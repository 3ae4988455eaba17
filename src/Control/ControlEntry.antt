-- ===== src/Control/ControlEntry.antt =====
-- `ControlEntry` of `src/control/cachelito.rs`: the atomic fields of a slot, and their accessors.
-- An atomic is the number that it holds. An `Instant` is its nanoseconds since the process anchor
-- (0 for one that is not after it), and a `Duration` its nanoseconds.
use the_six.Base.{
  ℕ, ◌+◌, ◌-◌, ◌%◌, Bool, true, false, Option, none, some, ltb, leb, ◌==◌, if◌then◌else◌, u64_mod,
}
use the_six.Base.Result.{CacheError, timeout, population_failed, tier_unavailable, cancelled}
use the_six.Tier.{TierId, l0, as_usize, as_u8, from_usize}
use the_six.Entry.{
  EntryState, absent, ready, stale, in_flight, prepared, failed, state_code, kind_as_u8,
  kind_from_u8, CommitIntent,
}
use the_six.Integrity.{KeyAddress}
use mathlib.Core.Option

pub record ControlEntry : Type 0 where
  pub state : ℕ
  pub generation : ℕ
  pub tier : ℕ
  pub population_owner : Bool
  pub population_timestamp : ℕ
  pub expiration_nanos : ℕ
  pub last_error : ℕ
  pub intent_present : Bool
  pub intent_generation : ℕ
  pub intent_kind : ℕ
  pub intent_tier : ℕ
  pub intent_since_nanos : ℕ
  pub intent_prev_state : ℕ
  pub address : KeyAddress
  -- How often `notify_waiters` has been called on the slot's `Notify`.
  pub notified : ℕ

-- `ControlEntry::new`.
unfoldable pub new_entry : KeyAddress → ControlEntry
unfolding state_code as_u8
new_entry address = record {
  state = state_code absent;
  generation = 0;
  tier = as_u8 l0;
  population_owner = false;
  population_timestamp = 0;
  expiration_nanos = 0;
  last_error = 0;
  intent_present = false;
  intent_generation = 0;
  intent_kind = 0;
  intent_tier = 0;
  intent_since_nanos = 0;
  intent_prev_state = state_code absent;
  address = address;
  notified = 0;
}

-- `EntryStateAtomic::try_from(raw).unwrap_or(Absent)`, as an `EntryState`.
unfoldable pub state_of_code : ℕ → EntryState
state_of_code raw =
    if raw == 1
    then ready
    else if raw == 2
    then stale
    else if raw == 3
    then in_flight
    else if raw == 4
    then failed
    else if raw == 5
    then prepared
    else absent

unfoldable pub state_of : ControlEntry → EntryState
unfolding state_of_code
state_of e = state_of_code e.state

unfoldable pub set_state : EntryState → ControlEntry → ControlEntry
unfolding state_code
set_state new_state e = record e { state = state_code new_state }

unfoldable pub set_generation : ℕ → ControlEntry → ControlEntry
set_generation generation e = record e { generation = generation }

-- `fetch_add(1)` wraps.
unfoldable pub next_generation : ℕ → ℕ
next_generation g = (g + 1) % u64_mod

unfoldable pub increment_generation : ControlEntry → ControlEntry
unfolding next_generation
increment_generation e = record e { generation = next_generation e.generation }

unfoldable pub tier_of : ControlEntry → TierId
unfolding from_usize
tier_of e = Option.get_or (from_usize e.tier) l0

unfoldable pub set_tier : TierId → ControlEntry → ControlEntry
unfolding as_usize
set_tier tier e = record e { tier = as_usize tier }

unfoldable pub set_population_owner : Bool → ControlEntry → ControlEntry
set_population_owner owner e = record e { population_owner = owner }

-- `u64::try_from(nanos).unwrap_or(u64::MAX)`.
unfoldable pub instant_to_nanos : ℕ → ℕ
instant_to_nanos t = if ltb t u64_mod then t else u64_mod - 1

unfoldable pub nanos_to_instant : ℕ → Option ℕ
nanos_to_instant nanos = if nanos == 0 then none else some nanos

unfoldable pub population_timestamp_of : ControlEntry → Option ℕ
unfolding nanos_to_instant
population_timestamp_of e = nanos_to_instant e.population_timestamp

unfoldable pub set_population_timestamp : Option ℕ → ControlEntry → ControlEntry
unfolding instant_to_nanos
set_population_timestamp none e = record e { population_timestamp = 0 }
set_population_timestamp (some t) e = record e { population_timestamp = instant_to_nanos t }

unfoldable pub notify : ControlEntry → ControlEntry
notify e = record e { notified = e.notified + 1 }

unfoldable pub intent_prev_state_of : ControlEntry → EntryState
unfolding state_of_code
intent_prev_state_of e = state_of_code e.intent_prev_state

unfoldable pub set_intent_prev_state : EntryState → ControlEntry → ControlEntry
unfolding state_code
set_intent_prev_state state e = record e { intent_prev_state = state_code state }

unfoldable pub set_intent : CommitIntent → ControlEntry → ControlEntry
unfolding kind_as_u8
set_intent intent e = record e {
  intent_present = true;
  intent_generation = intent.generation;
  intent_kind = kind_as_u8 intent.kind;
  intent_tier = intent.target_tier;
  intent_since_nanos = intent.started_nanos;
}

-- An outstanding intent whose kind byte is unknown reads as none.
unfoldable pub intent_of : ControlEntry → Option CommitIntent
unfolding kind_from_u8
intent_of e =
    if e.intent_present
    then elim (kind_from_u8 e.intent_kind) [
      | none ↦ none
      | some kind ↦ some (record {
        kind = kind;
        target_tier = e.intent_tier;
        generation = e.intent_generation;
        started_nanos = e.intent_since_nanos;
      })
    ]
    else none

unfoldable pub clear_intent : ControlEntry → ControlEntry
clear_intent e = record e {
  intent_present = false;
  intent_kind = 0;
  intent_generation = 0;
  intent_since_nanos = 0;
}

-- `d.as_nanos() as u64` keeps the low 64 bits.
unfoldable pub set_ttl : Option ℕ → ControlEntry → ControlEntry
set_ttl none e = record e { expiration_nanos = 0 }
set_ttl (some d) e = record e { expiration_nanos = d % u64_mod }

unfoldable pub ttl_of : ControlEntry → Option ℕ
ttl_of e = if e.expiration_nanos == 0 then none else some e.expiration_nanos

-- `populated_at.elapsed() >= ttl`, with the clock's reading as an argument. `elapsed` saturates at 0.
unfoldable pub is_expired : ℕ → ControlEntry → Bool
unfolding ttl_of population_timestamp_of
is_expired now e = elim (ttl_of e) [
  | none ↦ false
  | some ttl ↦ elim (population_timestamp_of e) [
    | none ↦ false
    | some populated_at ↦ leb ttl (now - populated_at)
  ]
]

unfoldable pub encode_error : Option CacheError → ℕ
encode_error none = 0
encode_error (some timeout) = 1
encode_error (some population_failed) = 2
encode_error (some tier_unavailable) = 3
encode_error (some cancelled) = 4
encode_error (some _) = 2

unfoldable pub decode_error : ℕ → Option CacheError
decode_error code =
    if code == 1
    then some timeout
    else if code == 2
    then some population_failed
    else if code == 3
    then some tier_unavailable
    else if code == 4
    then some cancelled
    else none

unfoldable pub set_last_error : Option CacheError → ControlEntry → ControlEntry
unfolding encode_error
set_last_error e entry = record entry { last_error = encode_error e }

unfoldable pub last_error_of : ControlEntry → Option CacheError
unfolding decode_error
last_error_of e = decode_error e.last_error
