-- ===== src/Tests/Plane.antt =====
-- A small plane on which all keys collide: one entry of it prepared, and committed.
use the_six.Base.{ℕ, ◌≡◌, refl, true, none, some, List, [], ◌∷◌}
use the_six.Base.Result.{ok}
use the_six.Tier.{l2}
use the_six.Entry.{write, prepared, CommitToken}
use the_six.Integrity.{KeyAddress, all_to_zero, address_of}
use the_six.Control.ControlEntry.{ControlEntry, state_of}
use the_six.Control.Cachelito.{Cachelito, with_capacity, with_placement, prepare, commit}
use the_six.Control.Cachelito.Lookup.{find}
use the_six.Control.History.{prepares, step, IsWellTyped, start, after}
use the_six.Control.History.Step.{IsConsistent, Reachable-IsConsistent}
use the_six.Control.Shard.Lookup.{lookup}

abbrev pub plane : Cachelito
plane = with_placement all_to_zero (with_capacity 1 2)

abbrev pub key : List ℕ
key = 97 ∷ 98 ∷ []

abbrev pub token : CommitToken
token = record {
  address = address_of key all_to_zero;
  generation = 0;
  kind = write;
  target_tier = 2;
}

pub plane-IsConsistent : IsConsistent plane
plane-IsConsistent = Reachable-IsConsistent plane (start all_to_zero 1 2)

pub issued : (prepare plane 10 key none l2 write).1 ≡ ok token
unfolding prepare with_placement with_capacity
issued = refl

abbrev pub prepared_plane : Cachelito
prepared_plane = (prepare plane 10 key none l2 write).0

pub prepared_plane-IsConsistent : IsConsistent prepared_plane
unfolding step
prepared_plane-IsConsistent =
    Reachable-IsConsistent (step plane (prepares 10 key none l2 write)) (
      after plane (prepares 10 key none l2 write) (start all_to_zero 1 2)
        (unfold IsWellTyped in tt))

abbrev pub address : KeyAddress
address = address_of key all_to_zero

abbrev pub prepared_entry : ControlEntry
prepared_entry = record {
  state = 5;
  generation = 0;
  tier = 0;
  population_owner = true;
  population_timestamp = 0;
  expiration_nanos = 0;
  last_error = 0;
  intent_present = true;
  intent_generation = 0;
  intent_kind = 1;
  intent_tier = 2;
  intent_since_nanos = 10;
  intent_prev_state = 0;
  address = address;
  notified = 0;
}

pub prepared_found : find prepared_plane address ≡ some prepared_entry
unfolding prepare with_placement with_capacity find lookup
prepared_found = refl

pub prepared_state : state_of prepared_entry ≡ prepared
unfolding state_of
prepared_state = refl

abbrev pub committed_plane : Cachelito
committed_plane = (commit prepared_plane 12 token (some 50)).0

pub committed : (commit prepared_plane 12 token (some 50)).1 ≡ ok tt
unfolding commit prepare with_placement with_capacity
committed = refl
