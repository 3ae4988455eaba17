-- ===== src/Control/Shard/Lookup.antt =====
-- A shard as a finite map from addresses to entries: the operations of `Shard` against the map.
use the_six.Base.{
  ℕ, ◌≡◌, sym, ◌∙◌, ◌⊎◌, inl, inr, Option, none, some, arith, ◌==◌, length, length-set,
  if◌then◌else◌, Option-cases, get_or-replicate,
}
use the_six.Integrity.{KeyAddress, same_address}
use the_six.Control.ControlEntry.{ControlEntry}
use the_six.Control.Shard.{Shard, new_shard, slot_at, home, find_slot, find_entry, write_entry}
use the_six.Control.Shard.Probe.{
  same_address_iff, slot_at-set, slot_at-lt, probe_slot_hit, probe_slot-set_same,
}

-- The entry that a shard holds for an address.
unfoldable pub lookup : Shard → KeyAddress → Option ControlEntry
unfolding find_entry
lookup s a = elim (find_entry s a) [ none ↦ none | some (_, e) ↦ some e ]

-- Every stored entry is the one that a probe for its address finds.
abbrev pub IsWellFormed : Shard → Type 0
IsWellFormed s =
    (i : ℕ) (e : ControlEntry) → slot_at s.entries i ≡ some e → find_slot s e.address ≡ some i

pub new_shard-IsWellFormed : (n : ℕ) → IsWellFormed (new_shard n)
unfolding new_shard
new_shard-IsWellFormed n i e h =
    absurd (ground (arith, get_or-replicate {A = Option ControlEntry} n i none))

find_slot_hit :
    (s : Shard) (a : KeyAddress) (i : ℕ)
    → find_slot s a ≡ some i
    → (e : ControlEntry) × (slot_at s.entries i ≡ some e) × (e.address ≡ a)
unfolding find_slot
find_slot_hit s a i h = probe_slot_hit s.entries a (length s.entries) (home s.entries a) i h

-- The two cases of a lookup.
abbrev pub Found : Shard → KeyAddress → Type 0
Found s a =
    ((find_slot s a ≡ none) × (find_entry s a ≡ none) × (lookup s a ≡ none))
    ⊎ ((i : ℕ) × (e : ControlEntry) × (find_slot s a ≡ some i)
        × (slot_at s.entries i ≡ some e)
        × (e.address ≡ a)
        × (find_entry s a ≡ some (i, e))
        × (lookup s a ≡ some e))

pub find_entry-cases : (s : Shard) (a : KeyAddress) → Found s a
unfolding find_entry lookup
find_entry-cases s a = elim (Option-cases (find_slot s a)) [
  | inl missing ↦ inl (missing, ground arith, ground arith)
  | inr (i, h) ↦
      let (e, full, same) = find_slot_hit s a i h in
      inr (i, e, h, full, same, ground arith, ground arith)
]

pub lookup-address :
    (s : Shard) (a : KeyAddress) (e : ControlEntry) → lookup s a ≡ some e → e.address ≡ a
lookup-address s a e h = ground (arith, find_entry-cases s a)

find_slot-write :
    (s : Shard) (i : ℕ) (e e' : ControlEntry) (b : KeyAddress)
    → slot_at s.entries i ≡ some e
    → e'.address ≡ e.address
    → find_slot (write_entry s i e') b ≡ find_slot s b
unfolding find_slot write_entry
find_slot-write s i e e' b full same =
    rw (length-set s.entries i (some e'))
      (probe_slot-set_same s.entries i e e' b (length s.entries) (home s.entries b) full same)

slot_at-write :
    (s : Shard) (i j : ℕ) (e e' : ControlEntry)
    → slot_at s.entries i ≡ some e
    → slot_at (write_entry s i e').entries j ≡ (if i == j then some e' else slot_at s.entries j)
unfolding write_entry
slot_at-write s i j e e' full = slot_at-set s.entries i j (some e') (slot_at-lt s.entries i e full)

pub write_entry-IsWellFormed :
    (s : Shard) (i : ℕ) (e e' : ControlEntry)
    → IsWellFormed s
    → slot_at s.entries i ≡ some e
    → e'.address ≡ e.address
    → IsWellFormed (write_entry s i e')
write_entry-IsWellFormed s i e e' w full same j x h = ground (
  arith,
  slot_at-write s i j e e' full,
  find_slot-write s i e e' x.address full same,
  w i e full,
  w j x,
)

-- A write of the entry that was found changes the map at its address and nowhere else.
pub lookup-write :
    (s : Shard) (a b : KeyAddress) (i : ℕ) (e e' : ControlEntry)
    → find_slot s a ≡ some i
    → slot_at s.entries i ≡ some e
    → e.address ≡ a
    → e'.address ≡ a
    → lookup (write_entry s i e') b ≡ (if same_address a b then some e' else lookup s b)
lookup-write s a b i e e' h full same same' =
    let kept = find_slot-write s i e e' b full (same' ∙ sym same) in
    elim (find_entry-cases s b) [
      | inl missing ↦
          ground (arith, find_entry-cases (write_entry s i e') b, same_address_iff a b, kept)
      | inr (j, x, at, full_j, same_j, found, read) ↦ ground (
        arith,
        find_entry-cases (write_entry s i e') b,
        same_address_iff a b,
        kept,
        slot_at-write s i j e e' full,
      )
    ]
