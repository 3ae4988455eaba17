-- ===== src/Tier/FixedTierStub.antt =====
-- `FixedTierStub` of `src/tier/fixed_tier_stub.rs`: the storage of one rung, an open-addressed index
-- over a pool of values. `now` is the clock's reading, one for a whole call. A `Duration` is its
-- nanoseconds.
pub mod Scan
pub mod Values
use the_six.Base.{
  ℕ, zero, suc, ◌+◌, ◌-◌, ◌%◌, Bool, true, false, ◌&&◌, Option, none, some, List, [], ◌∷◌, ◌==◌,
  leb, length, get_or, set, replicate, if◌then◌else◌, is_some, u64_mod,
}
use mathlib.Core.Option
use the_six.Base.Result.{Result, ok, err, configuration_error, capacity_exhausted, corrupted}
use the_six.Integrity.{
  Placement, default, KeyAddress, address_of, same_address, placement_hash, fingerprint_of,
}
use the_six.Pool.{MemoryPool, allocate, deallocate, get_mut}
use the_six.Pool

pub record Slot : Type 0 where
  pub placement : ℕ
  pub fingerprint : ℕ
  pub digest : ℕ
  pub pool_idx : ℕ
  pub expiry : Option (ℕ × ℕ)
  pub address : KeyAddress

-- `armed.elapsed() >= ttl`.
unfoldable pub is_expired : ℕ → Slot → Bool
is_expired now s = elim s.expiry [ none ↦ false | some (armed, ttl) ↦ leb ttl (now - armed) ]

pub record FixedTierStub (V : Type 0) : Type 0 where
  pub pool : MemoryPool V
  pub slots : List (Option Slot)
  pub placement : Placement
  pub corruptions_detected : ℕ
  pub eviction_cursor : ℕ

abbrev pub Slots : Type 0
Slots = List (Option Slot)

-- The slot at an index, which is always reduced modulo the length.
abbrev pub slot_at : Slots → ℕ → Option Slot
slot_at slots idx = get_or slots idx none

-- `s.placement == placement && s.fingerprint == fingerprint`.
unfoldable pub holds : ℕ → ℕ → Slot → Bool
holds placement fingerprint s = s.placement == placement && s.fingerprint == fingerprint

-- The loop of `find_slot`, by the attempts that are left.
unfoldable pub scan_slot : ℕ → Slots → ℕ → ℕ → ℕ → ℕ → Option ℕ
unfolding holds is_expired
scan_slot now slots placement fingerprint zero idx = none
scan_slot now slots placement fingerprint (suc left) idx =
    let rest = scan_slot now slots placement fingerprint left ((idx + 1) % length slots) in
    elim (slot_at slots idx) [
      | none ↦ rest
      | some s ↦
          if holds placement fingerprint s
          then (if is_expired now s then none else some idx)
          else rest
    ]

-- The loop of `find_empty`.
unfoldable pub scan_empty : ℕ → Slots → ℕ → ℕ → ℕ → ℕ → Option ℕ
unfolding holds is_expired
scan_empty now slots placement fingerprint zero idx = none
scan_empty now slots placement fingerprint (suc left) idx =
    let rest = scan_empty now slots placement fingerprint left ((idx + 1) % length slots) in
    elim (slot_at slots idx) [
      | none ↦ some idx
      | some s ↦
          if holds placement fingerprint s
          then some idx
          else if is_expired now s
          then some idx
          else rest
    ]

-- The loop of `remove_if_address`: the first slot of an address.
unfoldable pub scan_address : KeyAddress → Slots → Option ℕ
scan_address address [] = none
scan_address address (slot ∷ slots) =
    let rest = scan_address address slots in
    let later = Option.map suc rest in
    elim slot [ none ↦ later | some s ↦ if same_address s.address address then some 0 else later ]

-- The loop of `eviction_candidate`: the first slot from `idx` on that is not expired.
unfoldable pub scan_live : ℕ → Slots → ℕ → ℕ → Option (ℕ × Slot)
unfolding is_expired
scan_live now slots zero idx = none
scan_live now slots (suc left) idx =
    let rest = scan_live now slots left ((idx + 1) % length slots) in
    elim (slot_at slots idx) [
      | none ↦ rest
      | some s ↦ if is_expired now s then rest else some (idx, s)
    ]

-- `self.slots.iter().flatten().next()`.
unfoldable pub first_held : Slots → Option Slot
first_held [] = none
first_held (none ∷ slots) = first_held slots
first_held (some s ∷ slots) = some s

module _ {V : Type 0} where
  unfoldable pub with_capacity : ℕ → Result (FixedTierStub V)
  unfolding Pool.new
  with_capacity capacity =
      if capacity == 0 then err configuration_error else elim (Pool.new capacity) [
        | err e ↦ err e
        | ok pool ↦ ok (record {
          pool = pool;
          slots = replicate capacity none;
          placement = default;
          corruptions_detected = 0;
          eviction_cursor = 0;
        })
      ]

  unfoldable pub find_slot : ℕ → FixedTierStub V → ℕ → ℕ → Option ℕ
  unfolding scan_slot
  find_slot now stub placement fingerprint =
      scan_slot now stub.slots placement fingerprint (length stub.slots)
        (placement % length stub.slots)

  unfoldable pub find_empty : ℕ → FixedTierStub V → ℕ → ℕ → Option ℕ
  unfolding scan_empty
  find_empty now stub placement fingerprint =
      scan_empty now stub.slots placement fingerprint (length stub.slots)
        (placement % length stub.slots)

  unfoldable pub contains_key : ℕ → FixedTierStub V → List ℕ → Bool
  unfolding find_slot placement_hash fingerprint_of
  contains_key now stub key =
      is_some (find_slot now stub (placement_hash stub.placement key) (fingerprint_of key))

  -- `slot.take()` and the value's deallocation.
  unfoldable pub clear_slot : FixedTierStub V → ℕ → FixedTierStub V
  unfolding deallocate
  clear_slot stub idx = elim (slot_at stub.slots idx) [
    | none ↦ stub
    | some s ↦ elim (deallocate stub.pool s.pool_idx) [
      | err _ ↦ record stub { slots = set stub.slots idx none }
      | ok pool ↦ record stub { slots = set stub.slots idx none; pool = pool }
    ]
  ]

  unfoldable pub remove : ℕ → FixedTierStub V → List ℕ → FixedTierStub V
  unfolding find_slot clear_slot placement_hash fingerprint_of
  remove now stub key =
      elim (find_slot now stub (placement_hash stub.placement key) (fingerprint_of key)) [
        | none ↦ stub
        | some idx ↦ clear_slot stub idx
      ]

  unfoldable pub remove_if_address : FixedTierStub V → KeyAddress → FixedTierStub V × Bool
  unfolding scan_address clear_slot
  remove_if_address stub address = elim (scan_address address stub.slots) [
    | none ↦ (stub, false)
    | some idx ↦ (clear_slot stub idx, true)
  ]

  unfoldable pub eviction_candidate : ℕ → FixedTierStub V → FixedTierStub V × Option KeyAddress
  unfolding scan_live first_held
  eviction_candidate now stub =
      if length stub.slots == 0
      then (stub, none)
      else elim (scan_live now stub.slots (length stub.slots)
          (stub.eviction_cursor % length stub.slots)) [
            | some (idx, s) ↦ (record stub { eviction_cursor = idx + 1 }, some s.address)
            | none ↦ (
              record stub { eviction_cursor = (stub.eviction_cursor + 1) % u64_mod },
              elim (first_held stub.slots) [ none ↦ none | some s ↦ some s.address ],
            )
          ]

  -- The pool index that `set` stores the value at, and the pool with the value.
  unfoldable pub place : MemoryPool V → Option Slot → V → Result (MemoryPool V × ℕ)
  unfolding allocate get_mut
  place pool none value = allocate pool value
  place pool (some old) value = elim (get_mut pool old.pool_idx value) [
    | some pool' ↦ ok (pool', old.pool_idx)
    | none ↦ allocate pool value
  ]

  -- The digest of a value is a parameter: `IntegrityCheck::content_digest` of the value's type.
  module _ (content_digest : V → ℕ) where
    unfoldable pub get : ℕ → FixedTierStub V → List ℕ → FixedTierStub V × Result (Option V)
    unfolding find_slot placement_hash fingerprint_of Pool.get
    get now stub key =
        elim (find_slot now stub (placement_hash stub.placement key) (fingerprint_of key)) [
          | none ↦ (stub, ok none)
          | some idx ↦ elim (slot_at stub.slots idx) [
            | none ↦ (stub, ok none)
            | some s ↦ elim (Pool.get stub.pool s.pool_idx) [
              | none ↦ (stub, ok none)
              | some value ↦ if content_digest value == s.digest then (stub, ok (some value)) else (
                record stub { corruptions_detected = (stub.corruptions_detected + 1) % u64_mod },
                err corrupted,
              )
            ]
          ]
        ]

    unfoldable pub put : ℕ → FixedTierStub V → List ℕ → V → Option ℕ → Result (FixedTierStub V)
    unfolding find_empty place placement_hash fingerprint_of address_of
    put now stub key value ttl =
        elim (find_empty now stub (placement_hash stub.placement key) (fingerprint_of key)) [
          | none ↦ err capacity_exhausted
          | some idx ↦ elim (place stub.pool (slot_at stub.slots idx) value) [
            | err e ↦ err e
            | ok (pool, pool_idx) ↦ ok (record stub {
              pool = pool;
              slots = set stub.slots idx (
                  some (record {
                    placement = placement_hash stub.placement key;
                    fingerprint = fingerprint_of key;
                    digest = content_digest value;
                    pool_idx = pool_idx;
                    expiry = elim ttl [ none ↦ none | some t ↦ some (now, t) ];
                    address = address_of key stub.placement;
                  }));
            })
          ]
        ]
