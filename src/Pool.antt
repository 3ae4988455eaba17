-- ===== src/Pool.antt =====
-- `MemoryPool` of `src/pool.rs`: a fixed set of slots for values, and the stack of the free ones.
pub mod Slots
use the_six.Base.{
  ℕ, zero, suc, Option, none, some, List, [], ◌∷◌, ◌==◌, leb, get_or, set, replicate, if◌then◌else◌,
}
use the_six.Base.Result.{Result, ok, err, configuration_error}

-- The top of the stack stands first.
pub record MemoryPool (V : Type 0) : Type 0 where
  pub slots : List (Option V)
  pub free_indices : List ℕ
  pub capacity : ℕ

-- The indices below a bound, as `new` pushes them.
unfoldable pub indices : ℕ → List ℕ
indices zero = []
indices (suc n) = n ∷ indices n

module _ {V : Type 0} where
  unfoldable pub new : ℕ → Result (MemoryPool V)
  unfolding indices
  new capacity =
      if capacity == 0
      then err configuration_error
      else ok (record {
        slots = replicate capacity none;
        free_indices = indices capacity;
        capacity = capacity;
      })

  -- The pool and the index. An index on the stack is in range.
  unfoldable pub allocate : MemoryPool V → V → Result (MemoryPool V × ℕ)
  allocate pool value = elim pool.free_indices [
    | [] ↦ err configuration_error
    | idx ∷ rest ↦
        ok (record pool { slots = set pool.slots idx (some value); free_indices = rest }, idx)
  ]

  unfoldable pub deallocate : MemoryPool V → ℕ → Result (MemoryPool V)
  deallocate pool idx =
      if leb pool.capacity idx
      then err configuration_error
      else ok
          (record pool { slots = set pool.slots idx none; free_indices = idx ∷ pool.free_indices })

  unfoldable pub get : MemoryPool V → ℕ → Option V
  get pool idx = if leb pool.capacity idx then none else get_or pool.slots idx none

  -- `*pool.get_mut(idx)? = value`.
  unfoldable pub get_mut : MemoryPool V → ℕ → V → Option (MemoryPool V)
  unfolding get
  get_mut pool idx value = elim (get pool idx) [
    | none ↦ none
    | some _ ↦ some (record pool { slots = set pool.slots idx (some value) })
  ]
