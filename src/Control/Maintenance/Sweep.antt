-- ===== src/Control/Maintenance/Sweep.antt =====
-- The expiry sweep of `src/control/cachelito.rs` on the plane as a map.
use the_six.Base.{
  ℕ, zero, suc, ◌+◌, ◌%◌, ◌≡◌, refl, ap, ◌∙◌, inl, inr, none, some, List, [], ◌∷◌, arith, length,
  get_or, Option-cases, false,
}
use mathlib.Core.Option
use the_six.Integrity.{KeyAddress}
use the_six.Control.ControlEntry.{ControlEntry}
use the_six.Control.Handlers.{sweep_entry}
use the_six.Control.Handlers.Address.{address-sweep}
use the_six.Control.Shard.{Shard, new_shard, slot_at, home, probe_slot, find_slot}
use the_six.Control.Shard.Lookup.{lookup, find_entry-cases}
use the_six.Control.Shard.Lookup
use the_six.Control.Cachelito.{Cachelito, shard_of, shard_for}
use the_six.Control.Cachelito.Lookup.{find, IsWellFormed}
use the_six.Control.Maintenance.{Slots, sweep_slots, sweep_shards, sweep_expired}

-- The entry after a sweep.
abbrev pub swept : ℕ → ControlEntry → ControlEntry
swept now e = (sweep_entry now e).0

module _ (now : ℕ) where
  length-sweep : (xs : Slots) → length (sweep_slots now xs).0 ≡ length xs
  unfolding sweep_slots
  length-sweep [] = refl
  length-sweep (none ∷ xs) = ap suc (length-sweep xs)
  length-sweep (some e ∷ xs) = ap suc (length-sweep xs)

  slot_at-sweep :
      (xs : Slots) (i : ℕ)
      → slot_at (sweep_slots now xs).0 i ≡ Option.map (swept now) (slot_at xs i)
  unfolding sweep_slots
  slot_at-sweep [] i = refl
  slot_at-sweep (none ∷ xs) zero = refl
  slot_at-sweep (some e ∷ xs) zero = refl
  slot_at-sweep (none ∷ xs) (suc i) = slot_at-sweep xs i
  slot_at-sweep (some e ∷ xs) (suc i) = slot_at-sweep xs i

  probe_slot-sweep :
      (xs : Slots) (a : KeyAddress) (n idx : ℕ)
      → probe_slot (sweep_slots now xs).0 a n idx ≡ probe_slot xs a n idx
  unfolding probe_slot
  probe_slot-sweep xs a zero idx = refl
  probe_slot-sweep xs a (suc n) idx =
      let step = slot_at-sweep xs idx in
      let len = length-sweep xs in
      let rest = probe_slot-sweep xs a n ((idx + 1) % length xs) in
      elim (Option-cases (slot_at xs idx)) [
        | inl empty ↦ ground arith
        | inr (e, full) ↦ ground (arith, address-sweep e now)
      ]

  sweep_shard : Shard → Shard
  sweep_shard s = record { entries = (sweep_slots now s.entries).0 }

  find_slot-sweep : (s : Shard) (a : KeyAddress) → find_slot (sweep_shard s) a ≡ find_slot s a
  unfolding find_slot sweep_shard
  find_slot-sweep s a =
      rw (length-sweep s.entries)
        (probe_slot-sweep s.entries a (length s.entries) (home s.entries a))

  lookup-sweep :
      (s : Shard) (a : KeyAddress) → lookup (sweep_shard s) a ≡ Option.map (swept now) (lookup s a)
  unfolding sweep_shard
  lookup-sweep s a =
      let same = find_slot-sweep s a in
      elim (find_entry-cases s a) [
        | inl (missing, found, read) ↦ ground (arith, find_entry-cases (sweep_shard s) a)
        | inr (i, e, at, full, here, found, read) ↦
            ground (arith, find_entry-cases (sweep_shard s) a, slot_at-sweep s.entries i)
      ]

  sweep_shard-IsWellFormed :
      (s : Shard) → Lookup.IsWellFormed s → Lookup.IsWellFormed (sweep_shard s)
  unfolding sweep_shard
  sweep_shard-IsWellFormed s w i e h =
      let step = slot_at-sweep s.entries i in
      elim (Option-cases (slot_at s.entries i)) [
        | inl empty ↦ absurd (ground arith)
        | inr (x, full) ↦
            ground (arith, w i x full, find_slot-sweep s x.address, address-sweep x now)
      ]

  get_or-sweep :
      (xs : List Shard) (i : ℕ)
      → get_or (sweep_shards now xs).0 i (new_shard 0) ≡ sweep_shard (get_or xs i (new_shard 0))
  unfolding sweep_shards sweep_shard new_shard sweep_slots
  get_or-sweep [] i = refl
  get_or-sweep (x ∷ xs) zero = refl
  get_or-sweep (x ∷ xs) (suc i) = get_or-sweep xs i

  length-sweep_shards : (xs : List Shard) → length (sweep_shards now xs).0 ≡ length xs
  unfolding sweep_shards
  length-sweep_shards [] = refl
  length-sweep_shards (x ∷ xs) = ap suc (length-sweep_shards xs)

  -- The sweep changes the entry of every address as it changes that entry alone.
  pub find-sweep :
      (c : Cachelito) (a : KeyAddress)
      → find (sweep_expired now c).0 a ≡ Option.map (swept now) (find c a)
  unfolding find shard_of sweep_expired
  find-sweep c a =
      rw (get_or-sweep c.shards (shard_for c a))
        (lookup-sweep (get_or c.shards (shard_for c a) (new_shard 0)) a)

  pub sweep-IsWellFormed : (c : Cachelito) → IsWellFormed c → IsWellFormed (sweep_expired now c).0
  unfolding sweep_expired
  sweep-IsWellFormed c w = record {
    counted = length-sweep_shards c.shards ∙ w.counted;
    positive = w.positive;
    probed = λ i.
        rw (get_or-sweep c.shards i)
          (sweep_shard-IsWellFormed (get_or c.shards i (new_shard 0)) (w.probed i));
  }

  sweep_entry-twice : (e : ControlEntry) → sweep_entry now (swept now e) ≡ (swept now e, false)
  unfolding sweep_entry
  sweep_entry-twice e = ground arith

  sweep_slots-twice :
      (xs : Slots) → sweep_slots now (sweep_slots now xs).0 ≡ ((sweep_slots now xs).0, 0)
  unfolding sweep_slots
  sweep_slots-twice [] = refl
  sweep_slots-twice (none ∷ xs) = rw (sweep_slots-twice xs)
  sweep_slots-twice (some e ∷ xs) = rw (sweep_slots-twice xs, sweep_entry-twice e)

  sweep_shards-twice :
      (xs : List Shard) → sweep_shards now (sweep_shards now xs).0 ≡ ((sweep_shards now xs).0, 0)
  unfolding sweep_shards
  sweep_shards-twice [] = refl
  sweep_shards-twice (x ∷ xs) = rw (sweep_slots-twice x.entries, sweep_shards-twice xs)

  -- A second sweep at the same time demotes nothing and leaves the plane as the first one left it.
  pub sweep_expired-twice :
      (c : Cachelito) → sweep_expired now (sweep_expired now c).0 ≡ ((sweep_expired now c).0, 0)
  unfolding sweep_expired
  sweep_expired-twice c = rw (sweep_shards-twice c.shards)
