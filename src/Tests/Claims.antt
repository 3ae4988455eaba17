-- ===== src/Tests/Claims.antt =====
-- Instances of the theorems on claims, evictions, sweeps, statistics and the table of a shard.
use the_six.Base.{◌≡◌, ◌⊎◌, refl, true, false, some}
use the_six.Base.Result.{ok}
use the_six.Tier.{l2, l4}
use the_six.Entry.{in_flight, prepared, is_claimable}
use the_six.Integrity.{KeyAddress}
use the_six.Control.ControlEntry.{ControlEntry, state_of, new_entry}
use the_six.Control.Handlers.{ControlSnapshot}
use the_six.Control.Shard.{new_shard, find_empty, find_or_create_entry}
use the_six.Control.Shard.Lookup.{lookup, new_shard-IsWellFormed}
use the_six.Control.Shard.Create.{Creation, find_or_create_entry-Creation}
use the_six.Control.Cachelito.{
  shard_of, with_capacity, with_placement, address_for, prepare, commit, acquire, reserve_eviction,
  release_population_claim,
}
use the_six.Control.Cachelito.Lookup.{find, IsWellFormed}
use the_six.Control.Cachelito.Calls.{has_room}
use the_six.Control.History.{commits, step}
use the_six.Control.History.Step.{step-IsWellFormed}
use the_six.Control.TwoPhase.{subject}
use the_six.Control.Claims.{Granted, Observed, acquire-cases, acquire_twice}
use the_six.Control.Eviction.{
  IsEvictable, Reserved, Released, reserve_eviction_iff, release_population_claim_iff,
}
use the_six.Control.Maintenance.{plane_stats}
use the_six.Control.Maintenance.Stats.{IsBalanced, all_held, plane_stats-IsBalanced}
use the_six.Tests.Plane.{
  plane, key, token, address, plane-IsConsistent, prepared_plane, prepared_plane-IsConsistent,
  prepared_entry, prepared_found, committed_plane,
}

room : has_room plane (address_for plane key) ≡ true
unfolding has_room address_for with_placement with_capacity find lookup find_empty shard_of
room = refl

claimable : is_claimable (state_of (subject plane key)) ≡ true
unfolding is_claimable state_of address_for with_placement with_capacity find lookup new_entry
    shard_of
claimable = refl

acquire-cases_example :
    (snapshot : ControlSnapshot) × (e : ControlEntry) × ((acquire plane 5 key l2).1 ≡ ok snapshot)
    × (find (acquire plane 5 key l2).0 (address_for plane key) ≡ some e)
    × (((is_claimable (state_of (subject plane key)) ≡ true)
          × Granted (subject plane key) l2 snapshot e)
        ⊎ ((is_claimable (state_of (subject plane key)) ≡ false)
            × Observed (subject plane key) snapshot e))
acquire-cases_example = acquire-cases plane-IsConsistent 5 key l2 room

acquire_twice_example :
    (snapshot : ControlSnapshot) × ((acquire (acquire plane 5 key l2).0 6 key l4).1 ≡ ok snapshot)
    × (snapshot.population_owner ≡ false)
    × (snapshot.state ≡ in_flight)
    × (find (acquire (acquire plane 5 key l2).0 6 key l4).0 (address_for plane key)
        ≡ find (acquire plane 5 key l2).0 (address_for plane key))
acquire_twice_example = acquire_twice plane-IsConsistent 5 key l2 room 6 l4 claimable

abbrev committed_entry : ControlEntry
committed_entry = record {
  state = 1;
  generation = 0;
  tier = 2;
  population_owner = false;
  population_timestamp = 12;
  expiration_nanos = 50;
  last_error = 0;
  intent_present = false;
  intent_generation = 0;
  intent_kind = 0;
  intent_tier = 2;
  intent_since_nanos = 0;
  intent_prev_state = 1;
  address = address;
  notified = 1;
}

committed_found : find committed_plane address ≡ some committed_entry
unfolding commit prepare with_placement with_capacity find lookup
committed_found = refl

committed_plane-IsWellFormed : IsWellFormed committed_plane
unfolding step
committed_plane-IsWellFormed =
    step-IsWellFormed prepared_plane prepared_plane-IsConsistent.shaped (commits 12 token (some 50))

reserve_eviction_iff_example :
    (IsEvictable committed_entry
      × ((reserve_eviction committed_plane address).1 ≡ ok true)
      × ((e : ControlEntry) × (find (reserve_eviction committed_plane address).0 address ≡ some e)
          × Reserved committed_entry e))
    ⊎ ((IsEvictable committed_entry → ⊥)
        × ((reserve_eviction committed_plane address).1 ≡ ok false)
        × ((b : KeyAddress)
            → find (reserve_eviction committed_plane address).0 b ≡ find committed_plane b))
reserve_eviction_iff_example =
    reserve_eviction_iff committed_plane-IsWellFormed address committed_entry committed_found

release_population_claim_iff_example :
    ((state_of prepared_entry ≡ prepared)
      × (prepared_entry.population_owner ≡ true)
      × ((release_population_claim prepared_plane address).1 ≡ ok true)
      × ((e : ControlEntry) × (find (release_population_claim prepared_plane address).0 address
            ≡ some e)
          × Released prepared_entry e))
    ⊎ (((state_of prepared_entry ≡ prepared) × (prepared_entry.population_owner ≡ true) → ⊥)
        × ((release_population_claim prepared_plane address).1 ≡ ok false)
        × ((b : KeyAddress)
            → find (release_population_claim prepared_plane address).0 b ≡ find prepared_plane b))
release_population_claim_iff_example =
    release_population_claim_iff prepared_plane-IsConsistent.shaped address prepared_entry
      prepared_found

plane_stats-IsBalanced_example :
    ((plane_stats 100 committed_plane).occupied ≡ all_held committed_plane.shards)
    × IsBalanced (plane_stats 100 committed_plane)
plane_stats-IsBalanced_example = plane_stats-IsBalanced 100 committed_plane

find_or_create_entry-Creation_example :
    Creation (new_shard 2) address (find_or_create_entry (new_shard 2) address)
find_or_create_entry-Creation_example =
    find_or_create_entry-Creation (new_shard 2) address (new_shard-IsWellFormed 2)
