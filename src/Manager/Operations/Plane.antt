-- ===== src/Manager/Operations/Plane.antt =====
-- The plane under the operations of `src/manager.rs`, whatever becomes of them.
use the_six.Base.{ℕ, Bool}
use the_six.Base.Result.{Result}
use the_six.Tier.{TierId, as_usize}
use the_six.Tier.Interface.{CacheTier}
use the_six.Policy.{CacheOperation, CacheState, PolicyDecision}
use the_six.Control.History.Step.{IsConsistent, step-IsConsistent}
use the_six.Manager.{Shared, World}
use the_six.Manager.Rungs.{on_index, on_rung}
use the_six.Manager.Maintains.{Stable, IsFair}
use the_six.Manager.Rungs.Accesses.{plane-on_index}
use the_six.Manager.Operations.{Request, handle, Maintains-handle}

module _ {S : Type 0} where
  -- The plane of a shared state is consistent.
  abbrev pub HasConsistentPlane : Shared S → Type 0
  HasConsistentPlane s = IsConsistent s.plane

  on_index-HasConsistentPlane :
      {A : Type 0} (idx : ℕ) (access : S → ℕ → S × Result A) (s : Shared S)
      → IsConsistent s.plane
      → IsConsistent (on_index idx access s).0.plane
  on_index-HasConsistentPlane idx access s h = rw (plane-on_index idx access s) h

  on_rung-HasConsistentPlane :
      {A : Type 0} (tier : TierId) (access : S → ℕ → S × Result A) (s : Shared S)
      → IsConsistent s.plane
      → IsConsistent (on_rung tier access s).0.plane
  unfolding on_rung
  on_rung-HasConsistentPlane tier access s h =
      on_index-HasConsistentPlane (as_usize tier) access s h

  consistent-Stable : {V : Type 0} (T : CacheTier V S) → Stable T HasConsistentPlane
  consistent-Stable T = record {
    called = λ s call t h. step-IsConsistent s.plane call t h;
    got = λ s tier key h. on_rung-HasConsistentPlane tier _ s h;
    held = λ s tier key h. on_rung-HasConsistentPlane tier _ s h;
    stored = λ s tier key value ttl c h. on_rung-HasConsistentPlane tier _ s h;
    removed = λ s idx key other h. on_index-HasConsistentPlane idx _ s h;
    nominated = λ s tier c h. on_rung-HasConsistentPlane tier _ s h;
    evicted = λ s tier address c h. on_rung-HasConsistentPlane tier _ s h;
    noted = λ s log h. h;
    rated = λ s registry h. h;
  }

-- Whatever a manager's operation does, and wherever it is dropped or an await of it times out: where
-- the plane is consistent before, and what happens at each await keeps it so, it is consistent after.
pub handle-IsConsistent :
    {V S : Type 0} (T : CacheTier V S)
    (select : CacheOperation → CacheState → Bool → PolicyDecision) (authority : TierId)
    (request : Request V) (w : World S)
    → IsConsistent w.shared.plane
    → IsFair HasConsistentPlane w.schedule
    → IsConsistent (handle T select authority request w).1.shared.plane
handle-IsConsistent T select authority request w h fair =
    ((Maintains-handle T select authority (consistent-Stable T) request).at w h fair).0
