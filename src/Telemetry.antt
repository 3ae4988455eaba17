-- ===== src/Telemetry.antt =====
-- `src/telemetry.rs`: what a record says of an operation. A record has no field for a key or a value.
-- A `Duration` is its nanoseconds.
pub mod Ring
pub mod Percentiles
use the_six.Base.{
  ℕ, ◌-◌, ◌^◌, Bool, false, ◌&&◌, Option, none, some, List, ◌==◌, ltb, length, if◌then◌else◌,
}
use the_six.Base.Result.{CacheError, unauthenticated, unauthorized, policy_denied, cancelled, miss}
use the_six.Integrity.{fnv1a, fnv_offset_a}
use the_six.Tier.{TierId}
use the_six.Tier.Interface.{BackendKind}
use the_six.Continuity.{ContinuityState}

-- `fnv1a64` starts at the offset of the first lane of `src/integrity.rs`, with the same prime.
unfoldable pub fnv1a64 : List ℕ → ℕ
unfolding fnv1a
fnv1a64 bytes = fnv1a bytes fnv_offset_a

pub record KeyIdentity : Type 0 where
  pub digest : ℕ
  pub len : ℕ

-- `u16::try_from(key.len()).unwrap_or(u16::MAX)`.
abbrev u16_or_max : ℕ → ℕ
u16_or_max n = if ltb n (2 ^ 16) then n else 2 ^ 16 - 1

-- `KeyIdentity::of`.
unfoldable pub identity_of : List ℕ → KeyIdentity
unfolding fnv1a64
identity_of key = record { digest = fnv1a64 key; len = u16_or_max (length key) }

-- The derived `PartialEq`.
unfoldable pub same_identity : KeyIdentity → KeyIdentity → Bool
same_identity a b = a.digest == b.digest && a.len == b.len

pub data Operation : Type 0 where
  get get_or_fetch set invalidate remove exists refresh promote demote recover : Operation

pub data Outcome : Type 0 where
  served missed populated fell_back denied failed was_cancelled : Outcome

-- `Outcome::from_error`.
unfoldable pub from_error : CacheError → Outcome
from_error unauthenticated = denied
from_error unauthorized = denied
from_error policy_denied = denied
from_error cancelled = was_cancelled
from_error miss = missed
from_error _ = failed

pub record OperationRecord : Type 0 where
  pub operation : Operation
  pub key : KeyIdentity
  pub source_tier : Option TierId
  pub destination_tier : Option TierId
  pub backend : Option BackendKind
  pub generation : Option ℕ
  pub latency : ℕ
  pub outcome : Outcome
  pub fallback : Bool
  pub failure_class : Option CacheError
  pub recovery_state : Option ContinuityState

-- `OperationRecord::begin`.
unfoldable pub begin_record : Operation → List ℕ → OperationRecord
unfolding identity_of
begin_record operation key = record {
  operation = operation;
  key = identity_of key;
  source_tier = none;
  destination_tier = none;
  backend = none;
  generation = none;
  latency = 0;
  outcome = served;
  fallback = false;
  failure_class = none;
  recovery_state = none;
}

-- `finish`; `now` is the reading that `started.elapsed()` makes.
unfoldable pub finish : ℕ → ℕ → Outcome → OperationRecord → OperationRecord
finish now started outcome r = record r { latency = now - started; outcome = outcome }

unfoldable pub with_source : TierId → OperationRecord → OperationRecord
with_source tier r = record r { source_tier = some tier }

unfoldable pub with_destination : TierId → OperationRecord → OperationRecord
with_destination tier r = record r { destination_tier = some tier }

unfoldable pub with_backend : BackendKind → OperationRecord → OperationRecord
with_backend backend r = record r { backend = some backend }

unfoldable pub with_generation : ℕ → OperationRecord → OperationRecord
with_generation generation r = record r { generation = some generation }

unfoldable pub with_fallback : Bool → OperationRecord → OperationRecord
with_fallback fallback r = record r { fallback = fallback }

unfoldable pub with_failure : CacheError → OperationRecord → OperationRecord
unfolding from_error
with_failure e r = record r { failure_class = some e; outcome = from_error e }

unfoldable pub with_recovery_state : ContinuityState → OperationRecord → OperationRecord
with_recovery_state state r = record r { recovery_state = some state }
