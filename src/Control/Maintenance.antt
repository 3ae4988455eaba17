-- ===== src/Control/Maintenance.antt =====
-- The passes over every shard of `src/control/cachelito.rs`: `plane_stats`, `sweep_expired` and
-- `stale_intents`. `now` is the clock's reading, one for a whole pass. A count is at most the number
-- of slots in memory, so its `usize` does not overflow.
pub mod Sweep
pub mod Stats
use the_six.Base.{
  ℕ, ◌+◌, ◌-◌, ◌*◌, Bool, ◌&&◌, Option, none, some, List, [], ◌∷◌, ◌++◌, leb, ltb, length, get_or,
  set, replicate, if◌then◌else◌, is_some, u64_mod,
}
use the_six.Tier.{as_usize}
use the_six.Entry.{state_code, CommitIntent}
use the_six.Integrity.{KeyAddress}
use the_six.Control.ControlEntry.{
  ControlEntry, state_of, tier_of, intent_of, ttl_of, is_expired, instant_to_nanos,
}
use the_six.Control.Handlers.{sweep_entry}
use the_six.Control.Shard.{Shard}
use the_six.Control.Cachelito.{Cachelito}

pub record PlaneStats : Type 0 where
  pub capacity : ℕ
  pub occupied : ℕ
  pub by_state : List ℕ
  pub by_tier : List ℕ
  pub population_owned : ℕ
  pub intents_outstanding : ℕ
  pub expired_ready : ℕ

abbrev pub Slots : Type 0
Slots = List (Option ControlEntry)

-- `usize::saturating_mul`.
abbrev saturating_mul : ℕ → ℕ → ℕ
saturating_mul a b = if ltb (a * b) u64_mod then a * b else u64_mod - 1

-- `stats.by_state[idx] += 1`.
unfoldable pub increment : List ℕ → ℕ → List ℕ
increment counts idx = set counts idx (get_or counts idx 0 + 1)

-- `if test { *count += 1 }`.
abbrev pub count_if : Bool → ℕ → ℕ
count_if test count = if test then count + 1 else count

-- The body of the loop of `plane_stats`.
unfoldable pub count_entry : ℕ → ControlEntry → PlaneStats → PlaneStats
unfolding increment state_code state_of as_usize tier_of intent_of ttl_of is_expired
count_entry now entry stats = record {
  capacity = stats.capacity;
  occupied = stats.occupied + 1;
  by_state = increment stats.by_state (state_code (state_of entry));
  by_tier = increment stats.by_tier (as_usize (tier_of entry));
  population_owned = count_if entry.population_owner stats.population_owned;
  intents_outstanding = count_if (is_some (intent_of entry)) stats.intents_outstanding;
  expired_ready = count_if (is_some (ttl_of entry) && is_expired now entry) stats.expired_ready;
}

unfoldable pub count_slots : ℕ → Slots → PlaneStats → PlaneStats
unfolding count_entry
count_slots now [] stats = stats
count_slots now (none ∷ slots) stats = count_slots now slots stats
count_slots now (some entry ∷ slots) stats = count_slots now slots (count_entry now entry stats)

unfoldable pub count_shards : ℕ → List Shard → PlaneStats → PlaneStats
unfolding count_slots
count_shards now [] stats = stats
count_shards now (shard ∷ shards) stats =
    count_shards now shards (count_slots now shard.entries stats)

-- `PlaneStats::default()`, with the capacity.
unfoldable pub no_stats : ℕ → PlaneStats
no_stats capacity = record {
  capacity = capacity;
  occupied = 0;
  by_state = replicate 6 0;
  by_tier = replicate 7 0;
  population_owned = 0;
  intents_outstanding = 0;
  expired_ready = 0;
}

unfoldable pub plane_stats : ℕ → Cachelito → PlaneStats
unfolding count_shards no_stats
plane_stats now c =
    count_shards now c.shards (no_stats (saturating_mul (length c.shards) c.capacity_per_shard))

-- `sweep_expired`, by slots and by shards, with the number of entries that were demoted.
unfoldable pub sweep_slots : ℕ → Slots → Slots × ℕ
unfolding sweep_entry
sweep_slots now [] = ([], 0)
sweep_slots now (none ∷ slots) = let rest = sweep_slots now slots in (none ∷ rest.0, rest.1)
sweep_slots now (some entry ∷ slots) =
    let rest = sweep_slots now slots in
    (some (sweep_entry now entry).0 ∷ rest.0, count_if (sweep_entry now entry).1 rest.1)

unfoldable pub sweep_shards : ℕ → List Shard → List Shard × ℕ
unfolding sweep_slots
sweep_shards now [] = ([], 0)
sweep_shards now (shard ∷ shards) =
    let rest = sweep_shards now shards in
    let swept = sweep_slots now shard.entries in
    (record { entries = swept.0 } ∷ rest.0, swept.1 + rest.1)

unfoldable pub sweep_expired : ℕ → Cachelito → Cachelito × ℕ
unfolding sweep_shards
sweep_expired now c =
    let swept = sweep_shards now c.shards in (record c { shards = swept.0 }, swept.1)

-- The loop of `stale_intents` on the slots of one shard, and on every shard.
unfoldable pub stale_slots : ℕ → Slots → List (KeyAddress × CommitIntent)
unfolding intent_of
stale_slots cutoff [] = []
stale_slots cutoff (none ∷ slots) = stale_slots cutoff slots
stale_slots cutoff (some slot ∷ slots) =
    let rest = stale_slots cutoff slots in
    elim (intent_of slot) [
      | none ↦ rest
      | some intent ↦
          if leb intent.started_nanos cutoff then (slot.address, intent) ∷ rest else rest
    ]

unfoldable pub stale_shards : ℕ → List Shard → List (KeyAddress × CommitIntent)
unfolding stale_slots
stale_shards cutoff [] = []
stale_shards cutoff (shard ∷ shards) =
    stale_slots cutoff shard.entries ++ stale_shards cutoff shards

-- `saturating_sub` is the subtraction of ℕ.
unfoldable pub stale_intents : ℕ → ℕ → Cachelito → List (KeyAddress × CommitIntent)
unfolding stale_shards instant_to_nanos
stale_intents now older_than_nanos c =
    stale_shards (instant_to_nanos now - older_than_nanos) c.shards
