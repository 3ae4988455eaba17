-- ===== src/Control/Shard/Create.antt =====
-- `find_or_create_entry` against the map of a shard.
use the_six.Base.{
  ℕ, zero, suc, ◌<◌, ◌≡◌, inl, inr, none, some, arith, ◌==◌, length, set, length-set, if◌then◌else◌,
  Option-cases, Bool-cases,
}
use the_six.Base.Result.{Result, ok, err, configuration_error}
use the_six.Integrity.{KeyAddress, same_address}
use the_six.Control.ControlEntry.{ControlEntry, new_entry}
use the_six.Control.Shard.{
  Shard, slot_at, home, probe_empty, find_slot, find_empty, find_or_create_entry,
}
use the_six.Control.Shard.Probe.{
  same_address_iff, slot_at-set, probe_empty-lt, probe_slot-fill, probe_empty_free,
  probe_slot-stored,
}
use the_six.Control.Shard.Lookup.{lookup, IsWellFormed, find_entry-cases}

-- A shard that has created the entry of `a` in an empty slot `i`.
fill : Shard → KeyAddress → ℕ → Shard
unfolding new_entry
fill s a i = record { entries = set s.entries i (some (new_entry a)) }

module _ (s : Shard) (a : KeyAddress) (i : ℕ) (absent : find_slot s a ≡ none)
    (free : find_empty s a ≡ some i) where
  home-lt : home s.entries a < length s.entries
  unfolding find_empty
  home-lt = elim (Bool-cases (length s.entries == 0)) [
    | inl empty ↦ absurd (no_attempt (length s.entries) (ground arith) free)
    | inr some_slots ↦ ground arith
  ]
    where
      no_attempt : (n : ℕ) → n ≡ 0 → probe_empty s.entries a n (home s.entries a) ≡ some i → ⊥
      no_attempt zero e h = cc
      no_attempt (suc n) e h = omega arith

  in_range : i < length s.entries
  unfolding find_empty
  in_range = probe_empty-lt s.entries a (length s.entries) (home s.entries a) i home-lt free

  was_empty : slot_at s.entries i ≡ none
  unfolding find_slot find_empty
  was_empty = probe_empty_free s.entries a (length s.entries) (home s.entries a) i absent free

  slot_at-fill :
      (j : ℕ)
      → slot_at (fill s a i).entries j
        ≡ (if i == j then some (new_entry a) else slot_at s.entries j)
  unfolding fill
  slot_at-fill j = slot_at-set s.entries i j (some (new_entry a)) in_range

  find_slot-fill_self : find_slot (fill s a i) a ≡ some i
  unfolding find_slot find_empty fill
  find_slot-fill_self = rw (length-set s.entries i (some (new_entry a))) (
      probe_slot-stored s.entries (new_entry a) (length s.entries) (home s.entries a) i in_range
        absent free)

  find_slot-fill_old :
      (b : KeyAddress) (j : ℕ) → find_slot s b ≡ some j → find_slot (fill s a i) b ≡ some j
  unfolding find_slot fill
  find_slot-fill_old b j h = rw (length-set s.entries i (some (new_entry a))) (
      probe_slot-fill s.entries i (new_entry a) b (length s.entries) (home s.entries b) j in_range
        was_empty h)

  fill-IsWellFormed : IsWellFormed s → IsWellFormed (fill s a i)
  unfolding new_entry
  fill-IsWellFormed w j x h =
      ground (arith, slot_at-fill j, find_slot-fill_self, w j x, find_slot-fill_old x.address j)

  lookup-fill :
      (b : KeyAddress)
      → IsWellFormed s
      → lookup (fill s a i) b ≡ (if same_address a b then some (new_entry a) else lookup s b)
  unfolding new_entry
  lookup-fill b w = elim (find_entry-cases (fill s a i) b) [
    | inl missing ↦ elim (find_entry-cases s b) [
      | inl before ↦ ground (arith, find_slot-fill_self, same_address_iff a b)
      | inr (j, x, at, full, same, found, read) ↦ absurd (ground (arith, find_slot-fill_old b j at))
    ]
    | inr (j, x, at, full, same, found, read) ↦ ground (
      arith,
      find_slot-fill_self,
      same_address_iff a b,
      find_entry-cases s b,
      slot_at-fill j,
      w j x,
    )
  ]

-- What `find_or_create_entry` does: it finds the entry, creates it in an empty slot, or refuses.
pub data Creation (s : Shard) (a : KeyAddress) (r : Result (Shard × ℕ × ControlEntry))
    : Type 0 where
  existing :
      (i : ℕ) (e : ControlEntry)
      → find_slot s a ≡ some i
      → slot_at s.entries i ≡ some e
      → e.address ≡ a
      → lookup s a ≡ some e
      → r ≡ ok (s, i, e)
      → Creation s a r
  created :
      (s' : Shard) (i : ℕ)
      → find_slot s a ≡ none
      → lookup s a ≡ none
      → find_slot s' a ≡ some i
      → slot_at s'.entries i ≡ some (new_entry a)
      → IsWellFormed s'
      → ((b : KeyAddress)
          → lookup s' b ≡ (if same_address a b then some (new_entry a) else lookup s b))
      → r ≡ ok (s', i, new_entry a)
      → Creation s a r
  refused :
      find_slot s a ≡ none
      → find_empty s a ≡ none
      → lookup s a ≡ none
      → r ≡ err configuration_error
      → Creation s a r

-- On a well-formed shard the call returns the stored entry of the address; or it stores a new one in
-- an empty slot, which changes the map at that address alone and keeps the shard well formed; or it
-- refuses, where neither the address nor an empty slot is found.
pub find_or_create_entry-Creation :
    (s : Shard) (a : KeyAddress) → IsWellFormed s → Creation s a (find_or_create_entry s a)
unfolding find_or_create_entry
find_or_create_entry-Creation s a w = elim (find_entry-cases s a) [
  | inr (i, e, at, full, same, found, read) ↦ existing i e at full same read (ground arith)
  | inl (missing, found, read) ↦ elim (Option-cases (find_empty s a)) [
    | inl none_free ↦ refused missing none_free read (ground arith)
    | inr (i, free) ↦
        created (fill s a i) i missing read (find_slot-fill_self s a i missing free)
          (ground (arith, slot_at-fill s a i missing free i))
          (fill-IsWellFormed s a i missing free w) (λ b. lookup-fill s a i missing free b w)
          (unfold fill in ground arith)
  ]
]
