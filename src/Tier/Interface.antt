-- ===== src/Tier/Interface.antt =====
-- `src/tier/trait.rs`: what the manager asks of a rung, whatever it is bound to.
use the_six.Base.{ℕ, Bool, true, false, Option, List}
use the_six.Base.Result.{Result}
use the_six.Integrity.{KeyAddress}

pub data BackendKind : Type 0 where
  in_memory in_memory_fallback moka redis sled rocks_db postgres neo4j helix : BackendKind
  oxigraph origin test unavailable : BackendKind

-- `BackendKind::is_implemented`.
unfoldable pub is_implemented : BackendKind → Bool
is_implemented in_memory = true
is_implemented in_memory_fallback = true
is_implemented redis = true
is_implemented sled = true
is_implemented oxigraph = true
is_implemented origin = true
is_implemented test = true
is_implemented _ = false

unfoldable pub is_persistent_by_design : BackendKind → Bool
is_persistent_by_design sled = true
is_persistent_by_design rocks_db = true
is_persistent_by_design postgres = true
is_persistent_by_design _ = false

unfoldable pub is_shared_by_design : BackendKind → Bool
is_shared_by_design redis = true
is_shared_by_design postgres = true
is_shared_by_design neo4j = true
is_shared_by_design helix = true
is_shared_by_design origin = true
is_shared_by_design _ = false

-- The trait `CacheTier<V>`, over the states `S` that the rungs can be in. `Arc<dyn CacheTier<V>>`
-- dispatches on the state. The first number of an operation is the clock's reading; a key is the
-- bytes of its `KeyRef`.
pub record CacheTier (V S : Type 0) : Type 0 where
  pub backend : S → BackendKind
  pub get : S → ℕ → List ℕ → S × Result (Option V)
  pub set : S → ℕ → List ℕ → V → Option ℕ → S × Result (Unit {0})
  pub remove : S → ℕ → List ℕ → S × Result (Unit {0})
  pub contains : S → ℕ → List ℕ → S × Result Bool
  pub eviction_candidate : S → ℕ → S × Option KeyAddress
  pub remove_if_address : S → KeyAddress → S × Result Bool
