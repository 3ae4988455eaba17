-- ===== src/Pool/Slots.antt =====
-- The free indices of a pool are its empty slots, each of them once.
use the_six.Base.{
  ℕ, zero, suc, ◌<◌, ◌≡◌, refl, ◌∙◌, ◌≢◌, ◌↔◌, Bool, true, false, not, ◌&&◌, Option, none, some,
  List, [], ◌∷◌, ◌==◌, ==_iff, length, contains, get_or, set, replicate, arith, length-set,
  length-replicate, get_or-set_self, get_or-set_ne, get_or-replicate, Bool-cases, inl, inr,
  if◌then◌else◌, ◌⊎◌,
}
use the_six.Base.Result.{ok, err, configuration_error}
use the_six.Pool.{MemoryPool, indices, new, allocate, deallocate, get}

abbrev pub distinct : List ℕ → Bool
distinct [] = true
distinct (n ∷ ns) = not (contains ns n) && distinct ns

pub record IsWellFormed {V : Type 0} (pool : MemoryPool V) : Type 0 where
  pub counted : length pool.slots ≡ pool.capacity
  pub free :
      (i : ℕ)
      → (contains pool.free_indices i ≡ true)
        ↔ ((i < pool.capacity) × (get_or pool.slots i none ≡ none))
  pub once : distinct pool.free_indices ≡ true

contains-indices : (n i : ℕ) → (contains (indices n) i ≡ true) ↔ (i < n)
unfolding indices
contains-indices zero i = ground arith
contains-indices (suc n) i = ground (arith, contains-indices n i)

distinct-indices : (n : ℕ) → distinct (indices n) ≡ true
unfolding indices
distinct-indices zero = refl
distinct-indices (suc n) = ground (arith, contains-indices n n, distinct-indices n)

List-cases : {A : Type 0} (xs : List A) → (xs ≡ []) ⊎ ((x : A) × (ys : List A) × (xs ≡ x ∷ ys))
List-cases [] = inl refl
List-cases (x ∷ xs) = inr (x, xs, refl)

module _ {V : Type 0} where
  get_or-set :
      (xs : List (Option V)) (i j : ℕ) (v : Option V)
      → i < length xs
      → get_or (set xs i v) j none ≡ (if i == j then v else get_or xs j none)
  get_or-set xs i j v h = elim (Bool-cases (i == j)) [
    | inl e ↦ rw (e, ← (==_iff i j).0 e) (get_or-set_self xs i v none h)
    | inr e ↦ rw e (get_or-set_ne xs i j v none (λ p. ground (arith, p, e)))
  ]

  -- A new pool is well formed, and only a capacity of 0 is refused.
  pub new-IsWellFormed :
      (capacity : ℕ)
      → ((new {V = V} capacity ≡ err configuration_error) ↔ (capacity ≡ 0))
        × ((pool : MemoryPool V) → new capacity ≡ ok pool → IsWellFormed pool)
  unfolding new
  new-IsWellFormed capacity = (
    ground arith,
    λ pool h.
        let slots : pool.slots ≡ replicate capacity none = ground arith in
        let frees : pool.free_indices ≡ indices capacity = ground arith in
        let size : pool.capacity ≡ capacity = ground arith in
        record {
          counted = rw (slots, size) (length-replicate capacity none);
          free = λ i.
              rw (slots, frees, size)
                (ground (
                  arith,
                  contains-indices capacity i,
                  get_or-replicate {A = Option V} capacity i none,
                ));
          once = rw frees (distinct-indices capacity);
        },
  )

  module _ (pool : MemoryPool V) (w : IsWellFormed pool) where
    -- An allocation fails exactly where no slot is free. One that succeeds takes a slot that was
    -- empty, stores the value in it, leaves every other slot as it was, and keeps the pool well formed.
    pub allocate_lem :
        (value : V) (pool' : MemoryPool V) (idx : ℕ)
        → allocate pool value ≡ ok (pool', idx)
        → IsWellFormed pool'
          × (get pool idx ≡ none)
          × (get pool' idx ≡ some value)
          × ((j : ℕ) → j ≢ idx → get pool' j ≡ get pool j)
    unfolding allocate get
    allocate_lem value pool' idx h = elim (List-cases pool.free_indices) [
      | inl empty ↦ absurd (ground arith)
      | inr (i, rest, stack) ↦
          let at : idx ≡ i = ground arith in
          let slots : pool'.slots ≡ set pool.slots i (some value) = ground arith in
          let frees : pool'.free_indices ≡ rest = ground arith in
          let size : pool'.capacity ≡ pool.capacity = ground arith in
          let room : (i < pool.capacity) × (get_or pool.slots i none ≡ none) =
            (w.free i).0 (ground (arith, stack)) in
          let once : (contains rest i ≡ false) × (distinct rest ≡ true) =
            let o = w.once in ground (arith, stack) in
          let read = λ (j : ℕ). get_or-set pool.slots i j (some value) (rw w.counted room.0) in
          (
            record {
              counted = rw (slots, size) (length-set pool.slots i (some value) ∙ w.counted);
              free = λ j.
                  rw (slots, size, frees) (ground (arith, read j, once, w.free j, stack, room));
              once = rw frees once.1;
            },
            ground (arith, room, at),
            ground (arith, read i, at, slots, size, room),
            λ j differ. ground (arith, read j, at, slots, size, differ),
          )
    ]

    -- The release of an index in use empties its slot, leaves every other slot as it was, and keeps
    -- the pool well formed.
    pub deallocate_lem :
        (idx : ℕ) (value : V) (pool' : MemoryPool V)
        → get pool idx ≡ some value
        → deallocate pool idx ≡ ok pool'
        → IsWellFormed pool'
          × (get pool' idx ≡ none)
          × ((j : ℕ) → j ≢ idx → get pool' j ≡ get pool j)
    unfolding deallocate get
    deallocate_lem idx value pool' full h =
        let slots : pool'.slots ≡ set pool.slots idx none = ground arith in
        let frees : pool'.free_indices ≡ idx ∷ pool.free_indices = ground arith in
        let size : pool'.capacity ≡ pool.capacity = ground arith in
        let room : idx < pool.capacity = ground arith in
        let taken : contains pool.free_indices idx ≡ false = ground (arith, w.free idx) in
        let read = λ (j : ℕ). get_or-set pool.slots idx j none (rw w.counted room) in
        (
          record {
            counted = rw (slots, size) (length-set pool.slots idx none ∙ w.counted);
            free = λ j. rw (slots, size, frees) (ground (arith, read j, w.free j, room));
            once = rw frees (let o = w.once in ground (arith, taken));
          },
          ground (arith, read idx, slots, size),
          λ j differ. ground (arith, read j, slots, size, differ),
        )
