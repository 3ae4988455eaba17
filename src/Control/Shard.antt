-- ===== src/Control/Shard.antt =====
-- `Shard` of `src/control/cachelito.rs`: a fixed table with open addressing. Entries are never
-- taken out, so a probe may stop at the first empty slot.
pub mod Probe
pub mod Lookup
pub mod Create
use the_six.Base.{
  ℕ, zero, suc, ◌+◌, ◌%◌, Option, none, some, List, length, get_or, set, replicate, if◌then◌else◌,
}
use the_six.Base.Result.{Result, ok, err, configuration_error}
use the_six.Integrity.{KeyAddress, same_address}
use the_six.Control.ControlEntry.{ControlEntry, new_entry}

pub record Shard : Type 0 where
  pub entries : List (Option ControlEntry)

-- `Shard::new`.
unfoldable pub new_shard : ℕ → Shard
new_shard capacity = record { entries = replicate capacity none }

-- `self.entries[idx]`; every index is reduced modulo the length, so it is in range.
abbrev pub slot_at : List (Option ControlEntry) → ℕ → Option ControlEntry
slot_at entries idx = get_or entries idx none

-- The loop of `find_slot`, by the attempts that are left.
unfoldable pub probe_slot : List (Option ControlEntry) → KeyAddress → ℕ → ℕ → Option ℕ
probe_slot entries address zero idx = none
probe_slot entries address (suc left) idx =
    let rest = probe_slot entries address left ((idx + 1) % length entries) in
    elim (slot_at entries idx) [
      | none ↦ none
      | some entry ↦ if same_address entry.address address then some idx else rest
    ]

-- The loop of `find_empty`.
unfoldable pub probe_empty : List (Option ControlEntry) → KeyAddress → ℕ → ℕ → Option ℕ
probe_empty entries address zero idx = none
probe_empty entries address (suc left) idx =
    let rest = probe_empty entries address left ((idx + 1) % length entries) in
    elim (slot_at entries idx) [
      | none ↦ some idx
      | some entry ↦ if same_address entry.address address then some idx else rest
    ]

-- The slot that a probe starts from. On an empty table the loops make no attempt.
abbrev pub home : List (Option ControlEntry) → KeyAddress → ℕ
home entries address = address.placement % length entries

unfoldable pub find_slot : Shard → KeyAddress → Option ℕ
unfolding probe_slot
find_slot shard address =
    probe_slot shard.entries address (length shard.entries) (home shard.entries address)

unfoldable pub find_empty : Shard → KeyAddress → Option ℕ
unfolding probe_empty
find_empty shard address =
    probe_empty shard.entries address (length shard.entries) (home shard.entries address)

-- `find_or_create_entry`: the shard, the slot, and the entry in it, which the caller may write.
unfoldable pub find_or_create_entry : Shard → KeyAddress → Result (Shard × ℕ × ControlEntry)
unfolding find_slot find_empty new_entry
find_or_create_entry shard address = elim (find_slot shard address) [
  | some idx ↦ elim (slot_at shard.entries idx) [
    | some entry ↦ ok (shard, idx, entry)
    | none ↦ err configuration_error
  ]
  | none ↦ elim (find_empty shard address) [
    | some idx ↦ ok (
      record { entries = set shard.entries idx (some (new_entry address)) },
      idx,
      new_entry address,
    )
    | none ↦ err configuration_error
  ]
]

unfoldable pub find_entry : Shard → KeyAddress → Option (ℕ × ControlEntry)
unfolding find_slot
find_entry shard address = elim (find_slot shard address) [
  | none ↦ none
  | some idx ↦ elim (slot_at shard.entries idx) [ none ↦ none | some entry ↦ some (idx, entry) ]
]

-- A write through the reference that the lookups return.
unfoldable pub write_entry : Shard → ℕ → ControlEntry → Shard
write_entry shard idx entry = record { entries = set shard.entries idx (some entry) }
