-- ===== src/Tier/FixedTierStub/Values.antt =====
-- What `src/tier/fixed_tier_stub.rs` promises of values: a read returns what the last write stored.
use the_six.Base.{
  ℕ, zero, suc, ◌-◌, ◌%◌, ◌<◌, ◌≡◌, refl, ap, sym, ◌∙◌, Bool, true, false, Option, none, some, List,
  ◌==◌, ==_iff, arith, length, set, Bool-cases, Option-cases, inl, inr, ◌⊎◌, get_or-set_self, ltb,
  length-set,
}
use the_six.Base.Result.{CacheError, Result, ok, err}
use the_six.Integrity.{placement_hash, fingerprint_of, address_of}
use the_six.Pool.{MemoryPool}
use the_six.Pool
use the_six.Pool.Slots
use the_six.Tier.FixedTierStub.{
  Slot, FixedTierStub, slot_at, is_expired, scan_empty, find_slot, find_empty, get, place, put,
}
use the_six.Tier.FixedTierStub.Scan.{scan_empty-lt, scan_slot-stored}

-- Whether an entry with the lifetime `ttl` that was written at `now` is alive at `later`.
abbrev pub is_alive : ℕ → ℕ → Option ℕ → Bool
is_alive now later none = true
is_alive now later (some ttl) = ltb (later - now) ttl

Result-cases :
    {A : Type 0} (r : Result A) → ((e : CacheError) × (r ≡ err e)) ⊎ ((a : A) × (r ≡ ok a))
Result-cases (err e) = inl (e, refl)
Result-cases (ok a) = inr (a, refl)

module _ {V : Type 0} where
  -- A value that is placed is read at the index that is returned.
  place_lem :
      (pool : MemoryPool V) (slot : Option Slot) (value : V) (pool' : MemoryPool V) (i : ℕ)
      → Slots.IsWellFormed pool
      → place pool slot value ≡ ok (pool', i)
      → Pool.get pool' i ≡ some value
  unfolding place
  place_lem pool none value pool' i w h = (Slots.allocate_lem pool w value pool' i h).2
  place_lem pool (some old) value pool' i w h = elim (Option-cases (Pool.get pool old.pool_idx)) [
    | inl missing ↦ (Slots.allocate_lem pool w value pool' i (ground arith)).2
    | inr (x, found) ↦
        let at : i ≡ old.pool_idx = ground arith in
        let size : pool'.capacity ≡ pool.capacity = ground arith in
        let slots : pool'.slots ≡ set pool.slots old.pool_idx (some value) = ground arith in
        let room : old.pool_idx < pool.capacity = ground arith in
        let count = w.counted in
        let read = get_or-set_self pool.slots old.pool_idx (some value) none (ground arith) in
        ground (arith, read, slots, size, at, room)
  ]

  module _ (content_digest : V → ℕ) where
    -- What a lookup that finds an intact value returns.
    get_hit :
        (now : ℕ) (stub : FixedTierStub V) (key : List ℕ) (i : ℕ) (s : Slot) (value : V)
        → find_slot now stub (placement_hash stub.placement key) (fingerprint_of key) ≡ some i
        → slot_at stub.slots i ≡ some s
        → Pool.get stub.pool s.pool_idx ≡ some value
        → s.digest ≡ content_digest value
        → get content_digest now stub key ≡ (stub, ok (some value))
    unfolding get
    get_hit now stub key i s value found at held intact =
        let same = (==_iff (content_digest value) (content_digest value)).1 refl in
        rw (found, at, held, intact, same, get) refl

    -- The slot that `put` writes.
    written : FixedTierStub V → List ℕ → V → ℕ → ℕ → Option ℕ → Slot
    unfolding put
    written stub key value now pool_idx ttl = record {
      placement = placement_hash stub.placement key;
      fingerprint = fingerprint_of key;
      digest = content_digest value;
      pool_idx = pool_idx;
      expiry = elim ttl [ none ↦ none | some t ↦ some (now, t) ];
      address = address_of key stub.placement;
    }

    written_alive :
        (stub : FixedTierStub V) (key : List ℕ) (value : V) (now later pool_idx : ℕ)
        (ttl : Option ℕ)
        → is_alive now later ttl ≡ true
        → is_expired later (written stub key value now pool_idx ttl) ≡ false
    unfolding is_expired written
    written_alive stub key value now later pool_idx none alive = refl
    written_alive stub key value now later pool_idx (some t) alive = ground arith

    -- A write that succeeds stores its slot where the scan found room, and its value in the pool.
    put-cases :
        (now : ℕ) (stub : FixedTierStub V) (key : List ℕ) (value : V) (ttl : Option ℕ)
        (stub' : FixedTierStub V)
        → put content_digest now stub key value ttl ≡ ok stub'
        → (i : ℕ) × (pool' : MemoryPool V) × (j : ℕ) × (find_empty now stub
              (placement_hash stub.placement key)
              (fingerprint_of key)
            ≡ some i)
          × (place stub.pool (slot_at stub.slots i) value ≡ ok (pool', j))
          × (stub' ≡ record stub {
            pool = pool';
            slots = set stub.slots i (some (written stub key value now j ttl));
          })
    unfolding put written
    put-cases now stub key value ttl stub' h =
        elim (Option-cases
          (find_empty now stub (placement_hash stub.placement key) (fingerprint_of key))) [
            | inl full ↦ absurd (ground (arith, full))
            | inr (i, free) ↦ elim (Result-cases (place stub.pool (slot_at stub.slots i) value)) [
              | inl (e, failed) ↦ absurd (ground (arith, free, failed))
              | inr ((pool', j), placed) ↦
                  let result : put content_digest now stub key value ttl
                      ≡ ok (record stub {
                        pool = pool';
                        slots = set stub.slots i (some (written stub key value now j ttl));
                      }) =
                    rw (free, placed, put) refl in
                  (
                    i,
                    pool',
                    j,
                    free,
                    placed,
                    ap (λ r. elim r [ ok x ↦ x | err _ ↦ stub ]) (sym h ∙ result),
                  )
            ]
          ]

    find_empty-lt :
        (now : ℕ) (stub : FixedTierStub V) (placement fingerprint i : ℕ)
        → find_empty now stub placement fingerprint ≡ some i
        → i < length stub.slots
    unfolding find_empty
    find_empty-lt now stub placement fingerprint i h = elim (Bool-cases (length stub.slots == 0)) [
      | inl empty ↦ absurd (no_attempt (length stub.slots) (ground arith) h)
      | inr some_slots ↦
          scan_empty-lt stub.slots now placement fingerprint (length stub.slots)
            (placement % length stub.slots) i (ground arith) h
    ]
      where
        no_attempt :
            (n : ℕ)
            → n ≡ 0
            → scan_empty now stub.slots placement fingerprint n (placement % length stub.slots)
              ≡ some i
            → ⊥
        no_attempt zero e h = cc
        no_attempt (suc n) e h = omega arith

    find_slot-written :
        (now later : ℕ) (stub : FixedTierStub V) (pool' : MemoryPool V) (s : Slot) (i : ℕ)
        → find_empty now stub s.placement s.fingerprint ≡ some i
        → is_expired later s ≡ false
        → find_slot later
            (record stub { pool = pool'; slots = set stub.slots i (some s) })
            s.placement
            s.fingerprint
          ≡ some i
    unfolding find_slot find_empty
    find_slot-written now later stub pool' s i free alive = rw (length-set stub.slots i (some s)) (
        scan_slot-stored stub.slots now later s (length stub.slots)
          (s.placement % length stub.slots) i
          (find_empty-lt now stub s.placement s.fingerprint i free) alive free)

    -- What a write that succeeds stores, a read returns while it is alive, whatever else the table
    -- holds and wherever its keys collide.
    pub put-get :
        (now later : ℕ) (stub : FixedTierStub V) (key : List ℕ) (value : V) (ttl : Option ℕ)
        (stub' : FixedTierStub V)
        → Slots.IsWellFormed stub.pool
        → put content_digest now stub key value ttl ≡ ok stub'
        → is_alive now later ttl ≡ true
        → get content_digest later stub' key ≡ (stub', ok (some value))
    put-get now later stub key value ttl stub' w h alive =
        let (i, pool', j, free, placed, same) = put-cases now stub key value ttl stub' h in
        let s = written stub key value now j ttl in
        let r = find_empty-lt now stub s.placement s.fingerprint i (unfold written in free) in
        rw same (
          get_hit later (record stub { pool = pool'; slots = set stub.slots i (some s) }) key i s
            value
            (unfold written in
              find_slot-written now later stub pool' s i free
                (written_alive stub key value now later j ttl alive))
            (get_or-set_self stub.slots i (some s) none r)
            (unfold written in place_lem stub.pool (slot_at stub.slots i) value pool' j w placed)
            (unfold written in refl))
