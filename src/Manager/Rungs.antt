-- ===== src/Manager/Rungs.antt =====
-- The parts of `src/manager.rs` that its operations share: the caller's context of `src/identity.rs`,
-- the framed key, the policy's decision, the bound rungs, and the accesses that are recorded.
pub mod Nearest
pub mod Framed
pub mod Accesses
use the_six.Base.{
  ℕ, zero, suc, Bool, true, false, not, Option, none, some, List, [], ◌∷◌, ◌++◌, ◌==◌, ltb, leb,
  length, take, set, replicate, if◌then◌else◌, map, get_or,
}
use mathlib.Core.Option
use the_six.Base.Result
use the_six.Base.Result.{
  CacheError, Result, ok, err, unauthenticated, unauthorized, tier_unavailable,
  serialization_failed, capacity_exhausted,
}
use the_six.Tier.{TierId, l0, l6, as_usize, from_usize, from_index, is_cache_rung}
use the_six.Tier.Interface.{BackendKind, unavailable, CacheTier}
use the_six.Tier.Registry.{TierRegistry, fail, recover, failures_of}
use the_six.Key.{frame_tenant_key, encode}
use the_six.Policy.{CacheState, PolicyDecision}
use the_six.Continuity.{ContinuityState, healthy, degraded, failure_threshold}
use the_six.Continuity
use the_six.Telemetry.{
  Operation, Outcome, served, missed, populated, OperationRecord, begin_record, finish, with_source,
  with_destination, with_backend, with_generation, with_failure, from_error,
}
use the_six.Control.Cachelito.{Cachelito}
use the_six.Control.Handlers.{ControlSnapshot}
use the_six.Manager.{Shared, Task, lift, ◌>>=◌, ◌>>◌, attempt, gets, now_do, bounded}

-- `CacheContext`, with its `IdentityContext`. A text is its bytes; the roles are not read.
pub record CacheContext : Type 0 where
  pub principal : List ℕ
  pub tenant : List ℕ
  pub ttl : Option ℕ

unfoldable pub is_authenticated : CacheContext → Bool
is_authenticated ctx = ltb 0 (length ctx.principal)

-- The manager's own `MAX_KEY_SIZE`.
abbrev pub max_key_size : ℕ
max_key_size = 256

-- `encode_key`, for a key that is its bytes.
unfoldable pub encode_key : List ℕ → CacheContext → Result (List ℕ)
unfolding encode frame_tenant_key
encode_key key ctx = elim (encode key (replicate max_key_size 0)) [
  | err e ↦ err e
  | ok (key_len, raw) ↦
      elim (frame_tenant_key ctx.tenant (take key_len raw) (replicate max_key_size 0)) [
        | err e ↦ err e
        | ok (len, buf) ↦ ok (take len buf)
      ]
]

unfoldable pub check_auth : CacheContext → Result (Unit {0})
unfolding is_authenticated
check_auth ctx = if is_authenticated ctx then ok tt else err unauthenticated

unfoldable pub authorize : PolicyDecision → Result (Unit {0})
authorize decision = if decision.authorized then ok tt else err unauthorized

-- `CacheState::new()` and `CacheState::from_snapshot`. The availability of a rung's health is not
-- written by the registry, so it stays above 0.
unfoldable pub new_state : CacheState
new_state = record {
  tier = l0;
  tier_health = record { consecutive_failures = 0; has_availability = true };
}

unfoldable pub from_snapshot : ControlSnapshot → ℕ → CacheState
from_snapshot snapshot failures = record {
  tier = snapshot.tier;
  tier_health = record { consecutive_failures = failures; has_availability = true };
}

-- `write_provably_stored_nothing`.
unfoldable pub write_provably_stored_nothing : CacheError → Bool
write_provably_stored_nothing serialization_failed = true
write_provably_stored_nothing capacity_exhausted = true
write_provably_stored_nothing _ = false

unfoldable pub previous_rung : TierId → TierId
unfolding as_usize from_usize
previous_rung rung = elim (as_usize rung) [ zero ↦ l6 | suc n ↦ Option.get_or (from_usize n) l0 ]

-- The registry after an access, by its result: the match of `record_outcome` and `record_read`.
abbrev pub health_after : {A : Type 0} → TierId → Result A → TierRegistry → TierRegistry
health_after tier (ok _) r = recover r tier
health_after tier (err tier_unavailable) r = fail r tier
health_after tier (err _) r = r

-- How the result of a read, and of a write, is recorded.
abbrev pub read_outcome : {A : Type 0} → Result (Option A) → Outcome
read_outcome (ok (some _)) = served
read_outcome (ok none) = missed
read_outcome (err e) = from_error e

abbrev pub write_outcome : Result (Unit {0}) → Outcome
write_outcome (ok _) = populated
write_outcome (err e) = from_error e

abbrev pub mark_failure : {A : Type 0} → Result A → OperationRecord → OperationRecord
mark_failure (ok _) r = r
mark_failure (err e) r = with_failure e r

module _ {S : Type 0} where
  -- `bound_tier`, as the state of the rung, and `has_tier`.
  unfoldable pub bound_tier : Shared S → TierId → Option S
  unfolding as_usize
  bound_tier s id = get_or (map some s.rungs) (as_usize id) none

  unfoldable pub has_tier : Shared S → TierId → Bool
  unfolding as_usize
  has_tier s id = ltb (as_usize id) (length s.rungs)

  -- The loop of `nearest_bound_rung`, from an index down.
  unfoldable pub scan_bound : Shared S → ℕ → Option TierId
  unfolding has_tier from_index
  scan_bound s zero = elim (from_index 0) [
    | none ↦ none
    | some candidate ↦ if has_tier s candidate then some candidate else none
  ]
  scan_bound s (suc idx) =
      let rest = scan_bound s idx in
      elim (from_index (suc idx)) [
        | none ↦ none
        | some candidate ↦ if has_tier s candidate then some candidate else rest
      ]

  unfoldable pub nearest_bound_rung : Shared S → TierId → Option TierId
  unfolding scan_bound as_usize is_cache_rung
  nearest_bound_rung s wanted =
      if not (is_cache_rung wanted) then none else scan_bound s (as_usize wanted)

  unfoldable pub continuity_of : Shared S → TierId → ContinuityState
  unfolding has_tier failures_of
  continuity_of s tier =
      if not (has_tier s tier)
      then Continuity.unavailable
      else if failures_of s.registry tier == 0
      then healthy
      else if leb failure_threshold (failures_of s.registry tier)
      then Continuity.unavailable
      else degraded

  -- An access to a rung that is bound, by its index and by its name.
  unfoldable pub on_index :
      {A : Type 0} → ℕ → (S → ℕ → S × Result A) → Shared S → Shared S × Result A
  on_index idx access s = elim (get_or (map some s.rungs) idx none) [
    | none ↦ (s, err tier_unavailable)
    | some rung ↦
        (record s { rungs = set s.rungs idx (access rung s.now).0 }, (access rung s.now).1)
  ]

  unfoldable pub on_rung :
      {A : Type 0} → TierId → (S → ℕ → S × Result A) → Shared S → Shared S × Result A
  unfolding on_index as_usize
  on_rung id access = on_index (as_usize id) access

  -- A call of the plane.
  unfoldable pub on_plane :
      {A : Type 0} → (ℕ → Cachelito → Cachelito × Result A) → Shared S → Shared S × Result A
  on_plane call s = (record s { plane = (call s.now s.plane).0 }, (call s.now s.plane).1)

  -- `emit`.
  unfoldable pub emit : (Shared S → OperationRecord) → Task S (Unit {0})
  unfolding now_do
  emit make = now_do (λ s. (record s { log = s.log ++ make s ∷ [] }, ok tt))

  -- `record_outcome` and `record_read`.
  unfoldable pub record_outcome : {A : Type 0} → TierId → Result A → Task S (Unit {0})
  unfolding now_do recover fail
  record_outcome tier result =
      now_do (λ s. (record s { registry = health_after tier result s.registry }, ok tt))

  -- `observed_control_only`.
  unfoldable pub observed_control_only :
      Operation → List ℕ → TierId → ℕ → Outcome → Task S (Unit {0})
  unfolding emit begin_record with_source finish
  observed_control_only op key tier started outcome =
      emit (λ s. finish s.now started outcome (with_source tier (begin_record op key)))

  module _ {V : Type 0} (T : CacheTier V S) where
    unfoldable pub backend_of : Shared S → TierId → BackendKind
    unfolding bound_tier
    backend_of s id = elim (bound_tier s id) [ none ↦ unavailable | some rung ↦ T.backend rung ]

    -- `observed_read`, around `tier.get`, and `observed_write`, around `tier.set`.
    unfoldable pub observed_read : Operation → List ℕ → TierId → Task S (Option V)
    unfolding gets attempt bounded on_rung emit backend_of lift begin_record with_source
        with_backend with_generation finish with_failure from_error ◌>>=◌ ◌>>◌
    observed_read op key tier = do
      started ← gets (λ s. s.now)
      result ← attempt (bounded (on_rung tier (λ rung now. T.get rung now key)))
      emit (λ s. mark_failure result (
          finish s.now started (read_outcome result) (
            with_generation 0
              (with_backend (backend_of s tier) (with_source tier (begin_record op key))))))
      lift result

    unfoldable pub observed_write : Operation → List ℕ → TierId → V → Option ℕ → Task S (Unit {0})
    unfolding gets attempt bounded on_rung emit backend_of lift begin_record with_destination
        with_backend finish with_failure from_error ◌>>=◌ ◌>>◌
    observed_write op key tier value ttl = do
      started ← gets (λ s. s.now)
      result ← attempt (bounded (on_rung tier (λ rung now. T.set rung now key value ttl)))
      emit (λ s. mark_failure result (
          finish s.now started (write_outcome result)
            (with_backend (backend_of s tier) (with_destination tier (begin_record op key)))))
      lift result
