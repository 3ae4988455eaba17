-- ===== src/Control/Shard/Probe.antt =====
-- The probe loops of `Shard`, on the vector of slots: where they stop, and how a write of one slot
-- changes their result.
use the_six.Base.{
  ℕ, zero, suc, ◌+◌, ◌%◌, ◌<◌, ◌≡◌, refl, ◌↔◌, inl, inr, true, Option, none, some, List, [], ◌∷◌,
  arith, ◌==◌, ==_iff, length, set, length-set, get_or-set_self, get_or-set_ne, if◌then◌else◌,
  Option-cases, Bool-cases,
}
use the_six.Integrity.{KeyAddress, same_address}
use the_six.Control.ControlEntry.{ControlEntry}
use the_six.Control.Shard.{slot_at, probe_slot, probe_empty}

abbrev Slots : Type 0
Slots = List (Option ControlEntry)

pub same_address_iff : (a b : KeyAddress) → (same_address a b ≡ true) ↔ (a ≡ b)
same_address_iff a b = ground arith

pub slot_at-set :
    (xs : Slots) (i j : ℕ) (v : Option ControlEntry)
    → i < length xs
    → slot_at (set xs i v) j ≡ (if i == j then v else slot_at xs j)
slot_at-set xs i j v h = elim (Bool-cases (i == j)) [
  | inl e ↦ rw (e, ← (==_iff i j).0 e) (get_or-set_self xs i v none h)
  | inr e ↦ rw e (get_or-set_ne xs i j v none (λ p. ground (arith, p, e)))
]

pub slot_at-lt : (xs : Slots) (i : ℕ) (e : ControlEntry) → slot_at xs i ≡ some e → i < length xs
slot_at-lt [] i e h = cc
slot_at-lt (x ∷ xs) zero e h = omega arith
slot_at-lt (x ∷ xs) (suc i) e h = omega (arith, slot_at-lt xs i e h)

-- A probe for an address stops at a slot that holds the address.
pub probe_slot_hit :
    (xs : Slots) (a : KeyAddress) (n idx j : ℕ)
    → probe_slot xs a n idx ≡ some j
    → (e : ControlEntry) × (slot_at xs j ≡ some e) × (e.address ≡ a)
unfolding probe_slot
probe_slot_hit xs a zero idx j h = cc
probe_slot_hit xs a (suc n) idx j h = elim (Option-cases (slot_at xs idx)) [
  | inl empty ↦ absurd (ground arith)
  | inr (e, full) ↦ elim (Bool-cases (same_address e.address a)) [
    | inl hit ↦ (e, ground arith, (same_address_iff e.address a).0 hit)
    | inr other ↦ probe_slot_hit xs a n ((idx + 1) % length xs) j (ground arith)
  ]
]

pub probe_empty-lt :
    (xs : Slots) (a : KeyAddress) (n idx j : ℕ)
    → idx < length xs
    → probe_empty xs a n idx ≡ some j
    → j < length xs
unfolding probe_empty
probe_empty-lt xs a zero idx j r h = cc
probe_empty-lt xs a (suc n) idx j r h =
    let next : (idx + 1) % length xs < length xs = omega arith in
    ground (arith, probe_empty-lt xs a n ((idx + 1) % length xs) j next)

-- A write that keeps the slot's address changes no probe.
pub probe_slot-set_same :
    (xs : Slots) (i : ℕ) (e e' : ControlEntry) (a : KeyAddress) (n idx : ℕ)
    → slot_at xs i ≡ some e
    → e'.address ≡ e.address
    → probe_slot (set xs i (some e')) a n idx ≡ probe_slot xs a n idx
unfolding probe_slot
probe_slot-set_same xs i e e' a zero idx full same = refl
probe_slot-set_same xs i e e' a (suc n) idx full same = ground (
  arith,
  length-set xs i (some e'),
  slot_at-set xs i idx (some e') (slot_at-lt xs i e full),
  probe_slot-set_same xs i e e' a n ((idx + 1) % length xs) full same,
)

-- A probe that succeeds has met no empty slot, so filling one does not change it.
pub probe_slot-fill :
    (xs : Slots) (i : ℕ) (e : ControlEntry) (a : KeyAddress) (n idx j : ℕ)
    → i < length xs
    → slot_at xs i ≡ none
    → probe_slot xs a n idx ≡ some j
    → probe_slot (set xs i (some e)) a n idx ≡ some j
unfolding probe_slot
probe_slot-fill xs i e a zero idx j r empty h = cc
probe_slot-fill xs i e a (suc n) idx j r empty h = ground (
  arith,
  length-set xs i (some e),
  slot_at-set xs i idx (some e) r,
  probe_slot-fill xs i e a n ((idx + 1) % length xs) j r empty,
)

-- Where the address is absent, the slot that `find_empty` gives is empty.
pub probe_empty_free :
    (xs : Slots) (a : KeyAddress) (n idx i : ℕ)
    → probe_slot xs a n idx ≡ none
    → probe_empty xs a n idx ≡ some i
    → slot_at xs i ≡ none
unfolding probe_slot probe_empty
probe_empty_free xs a zero idx i h k = cc
probe_empty_free xs a (suc n) idx i h k =
    ground (arith, probe_empty_free xs a n ((idx + 1) % length xs) i)

-- And the address is found there once it is stored.
pub probe_slot-stored :
    (xs : Slots) (e : ControlEntry) (n idx i : ℕ)
    → i < length xs
    → probe_slot xs e.address n idx ≡ none
    → probe_empty xs e.address n idx ≡ some i
    → probe_slot (set xs i (some e)) e.address n idx ≡ some i
unfolding probe_slot probe_empty
probe_slot-stored xs e zero idx i r h k = cc
probe_slot-stored xs e (suc n) idx i r h k = ground (
  arith,
  length-set xs i (some e),
  slot_at-set xs i idx (some e) r,
  probe_empty_free xs e.address n ((idx + 1) % length xs) i,
  probe_slot-stored xs e n ((idx + 1) % length xs) i r,
)
