-- ===== src/Control/Maintenance/Stats.antt =====
-- The counts of `plane_stats` in `src/control/cachelito.rs`.
use the_six.Base.{
  ℕ, zero, suc, ◌+◌, ◌≤◌, ◌<◌, ◌≡◌, refl, ◌∙◌, none, some, List, [], ◌∷◌, arith, length, Bool,
  length-set, is_some, ◌&&◌,
}
use the_six.Control.ControlEntry.{ControlEntry, state_of, tier_of, intent_of, ttl_of, is_expired}
use the_six.Entry.{EntryState, state_code}
use the_six.Tier.{as_usize}
use the_six.Tier.Codes.{as_usize-lt}
use the_six.Control.Shard.{Shard}
use the_six.Control.Cachelito.{Cachelito}
use the_six.Control.Maintenance.{
  PlaneStats, Slots, increment, count_entry, count_slots, count_shards, no_stats, plane_stats,
  count_if,
}

abbrev pub sum : List ℕ → ℕ
sum [] = 0
sum (n ∷ ns) = n + sum ns

length-increment : (ns : List ℕ) (i : ℕ) → length (increment ns i) ≡ length ns
unfolding increment
length-increment ns i = length-set ns i _

sum-increment : (ns : List ℕ) (i : ℕ) → i < length ns → sum (increment ns i) ≡ sum ns + 1
unfolding increment
sum-increment [] i h = absurd (omega arith)
sum-increment (n ∷ ns) zero h = omega arith
sum-increment (n ∷ ns) (suc i) h = omega (arith, sum-increment ns i (omega arith))

-- How many slots of a shard, and of all shards, hold an entry.
abbrev pub held : Slots → ℕ
held [] = 0
held (none ∷ slots) = held slots
held (some e ∷ slots) = suc (held slots)

abbrev pub all_held : List Shard → ℕ
all_held [] = 0
all_held (s ∷ shards) = held s.entries + all_held shards

held-≤ : (slots : Slots) → held slots ≤ length slots
held-≤ [] = omega arith
held-≤ (none ∷ slots) = omega (arith, held-≤ slots)
held-≤ (some e ∷ slots) = omega (arith, held-≤ slots)

-- The histograms count every occupied slot once, and no count exceeds them.
pub record IsBalanced (s : PlaneStats) : Type 0 where
  states : sum s.by_state ≡ s.occupied
  tiers : sum s.by_tier ≡ s.occupied
  state_rows : length s.by_state ≡ 6
  tier_rows : length s.by_tier ≡ 7
  owned : s.population_owned ≤ s.occupied
  intents : s.intents_outstanding ≤ s.occupied
  expired : s.expired_ready ≤ s.occupied

state_code-lt : (x : EntryState) → state_code x < 6
unfolding state_code
state_code-lt x = ground arith

counted : (ns : List ℕ) (i n : ℕ) → i < length ns → sum ns ≡ n → sum (increment ns i) ≡ n + 1
counted ns i n h e = omega (arith, sum-increment ns i h)

count_if-≤ : (test : Bool) (m n : ℕ) → m ≤ n → count_if test m ≤ n + 1
count_if-≤ test m n h = ground arith

no_stats-IsBalanced : (capacity : ℕ) → IsBalanced (no_stats capacity)
unfolding no_stats
no_stats-IsBalanced capacity = record {
  states = refl;
  tiers = refl;
  state_rows = refl;
  tier_rows = refl;
  owned = omega arith;
  intents = omega arith;
  expired = omega arith;
}

module _ (now : ℕ) where
  count_entry-IsBalanced :
      (e : ControlEntry) (s : PlaneStats) → IsBalanced s → IsBalanced (count_entry now e s)
  unfolding count_entry
  count_entry-IsBalanced e s b = record {
    states =
        counted s.by_state (state_code (state_of e)) s.occupied
          (rw b.state_rows (state_code-lt (state_of e))) b.states;
    tiers =
        counted s.by_tier (as_usize (tier_of e)) s.occupied
          (rw b.tier_rows (as_usize-lt (tier_of e))) b.tiers;
    state_rows = length-increment s.by_state (state_code (state_of e)) ∙ b.state_rows;
    tier_rows = length-increment s.by_tier (as_usize (tier_of e)) ∙ b.tier_rows;
    owned = count_if-≤ e.population_owner s.population_owned s.occupied b.owned;
    intents = count_if-≤ (is_some (intent_of e)) s.intents_outstanding s.occupied b.intents;
    expired =
        count_if-≤ (is_some (ttl_of e) && is_expired now e) s.expired_ready s.occupied b.expired;
  }

  count_slots-IsBalanced :
      (slots : Slots) (s : PlaneStats)
      → IsBalanced s
      → IsBalanced (count_slots now slots s)
        × ((count_slots now slots s).occupied ≡ s.occupied + held slots)
  unfolding count_slots
  count_slots-IsBalanced [] s b = (b, omega arith)
  count_slots-IsBalanced (none ∷ slots) s b = count_slots-IsBalanced slots s b
  count_slots-IsBalanced (some e ∷ slots) s b =
      let (rest, total) =
        count_slots-IsBalanced slots (count_entry now e s) (count_entry-IsBalanced e s b) in
      (rest, total ∙ omega arith)

  count_shards-IsBalanced :
      (shards : List Shard) (s : PlaneStats)
      → IsBalanced s
      → IsBalanced (count_shards now shards s)
        × ((count_shards now shards s).occupied ≡ s.occupied + all_held shards)
  unfolding count_shards
  count_shards-IsBalanced [] s b = (b, omega arith)
  count_shards-IsBalanced (shard ∷ shards) s b =
      let (first, part) = count_slots-IsBalanced shard.entries s b in
      let (rest, total) = count_shards-IsBalanced shards (count_slots now shard.entries s) first in
      (rest, omega (arith, part, total))

  -- The statistics count every entry of the plane once: `occupied` is the number of slots that hold
  -- an entry, both histograms add up to it, and the counts of owned, of intended and of expired
  -- entries are at most that.
  pub plane_stats-IsBalanced :
      (c : Cachelito)
      → ((plane_stats now c).occupied ≡ all_held c.shards) × IsBalanced (plane_stats now c)
  unfolding plane_stats no_stats
  plane_stats-IsBalanced c =
      let (balanced, total) = count_shards-IsBalanced c.shards _ (no_stats-IsBalanced _) in
      (omega (arith, total), balanced)
