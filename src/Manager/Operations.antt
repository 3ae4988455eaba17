-- ===== src/Manager/Operations.antt =====
-- The operations of `CacheManager` in `src/manager.rs` as data: what is stable they keep.
pub mod Plane
pub mod Authority
pub mod Refusals
use the_six.Base.{ℕ, Bool, List, set}
use the_six.Base.Result.{Result}
use the_six.Tier.{TierId}
use the_six.Tier.Interface.{CacheTier}
use the_six.Policy.{CacheOperation, CacheState, PolicyDecision}
use the_six.Manager.{Shared, Task, pure, ◌>>=◌}
use the_six.Manager.Rungs.{CacheContext}
use the_six.Manager.Reads.{get, exists}
use the_six.Manager.Writes
use the_six.Manager.Moves.{promote, demote, invalidate_key, remove}
use the_six.Manager.Populate.{get_or_fetch}
use the_six.Manager.Refresh.{refresh}
use the_six.Manager.Maintains.{Stable, Maintains, maintains_rules}
use the_six.Manager.Maintains.Reads.{Maintains-get, Maintains-exists}
use the_six.Manager.Maintains.Writes.{Maintains-set}
use the_six.Manager.Maintains.Moves.{
  Maintains-promote, Maintains-demote, Maintains-invalidate_key, Maintains-remove,
}
use the_six.Manager.Maintains.Populate.{Maintains-get_or_fetch, Maintains-refresh}

-- A call of the manager. The closure of a population is what each of its attempts returns.
pub data Request (V : Type 0) : Type 0 where
  reads checks promotes demotes invalidates removes : List ℕ → CacheContext → Request V
  writes : List ℕ → V → CacheContext → Request V
  fetches refreshes : (ℕ → Result V) → List ℕ → CacheContext → Request V

module _ {V S : Type 0} (T : CacheTier V S)
    (select : CacheOperation → CacheState → Bool → PolicyDecision) (authority : TierId) where
  -- A call, with what it returns left out.
  unfoldable pub handle : Request V → Task S (Unit {0})
  unfolding get exists Writes.set promote demote invalidate_key remove get_or_fetch refresh pure
      ◌>>=◌
  handle (reads key ctx) = do _ ← get T select key ctx; pure tt
  handle (checks key ctx) = do _ ← exists T select key ctx; pure tt
  handle (promotes key ctx) = promote T select key ctx
  handle (demotes key ctx) = demote T select key ctx
  handle (invalidates key ctx) = invalidate_key T select key ctx
  handle (removes key ctx) = remove T select key ctx
  handle (writes key value ctx) = Writes.set T select authority key value ctx
  handle (fetches fetch key ctx) = do _ ← get_or_fetch T fetch select key ctx; pure tt
  handle (refreshes fetch key ctx) = do _ ← refresh T fetch select key ctx; pure tt

  module _ {P : Shared S → Type 0} (st : Stable T P) where
    pub Maintains-handle : (request : Request V) → Maintains P (handle request)
    unfolding handle
    Maintains-handle (reads key ctx) = search (maintains_rules, Maintains-get st)
    Maintains-handle (checks key ctx) = search (maintains_rules, Maintains-exists st)
    Maintains-handle (promotes key ctx) = Maintains-promote st select key ctx
    Maintains-handle (demotes key ctx) = Maintains-demote st select key ctx
    Maintains-handle (invalidates key ctx) = Maintains-invalidate_key st select key ctx
    Maintains-handle (removes key ctx) = Maintains-remove st select key ctx
    Maintains-handle (writes key value ctx) = Maintains-set st select authority key value ctx
    Maintains-handle (fetches fetch key ctx) = search (maintains_rules, Maintains-get_or_fetch st)
    Maintains-handle (refreshes fetch key ctx) = search (maintains_rules, Maintains-refresh st)
