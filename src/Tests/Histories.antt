-- ===== src/Tests/Histories.antt =====
-- Instances of the theorems on histories.
use the_six.Base.{◌≡◌, ◌≢◌, refl, ap, none, some, List, [], ◌∷◌, arith}
use the_six.Base.Result.{err, stale_generation}
use the_six.Tier.{l2, l4}
use the_six.Integrity.{KeyAddress, address_of}
use the_six.Control.Cachelito.{with_capacity, with_placement, address_for, prepare, commit}
use the_six.Control.Cachelito.Lookup.{find}
use the_six.Control.History.{Call, acquires, invalidates, step, run, apply, target}
use the_six.Control.History.Step.{find-step, room_for}
use the_six.Control.History.Generations.{Supersedes, AllAssignNone, commit_superseded}
use the_six.Tests.Plane.{
  plane, key, token, plane-IsConsistent, prepared_plane, prepared_plane-IsConsistent, address,
  prepared_entry, prepared_found,
}

find-step_example :
    find (step plane (acquires 5 key l2)) address
    ≡ apply
        (acquires 5 key l2)
        (target plane (acquires 5 key l2))
        (room_for plane (target plane (acquires 5 key l2)))
        (find plane)
        address
find-step_example = find-step plane plane-IsConsistent.shaped (acquires 5 key l2) address

invalidates_target : target prepared_plane (invalidates key) ≡ some address
unfolding target prepare with_placement with_capacity
invalidates_target = refl

history_address :
    address_for (run prepared_plane (invalidates key ∷ acquires 20 key l4 ∷ [])) key ≡ address
unfolding address_for run prepare with_placement with_capacity
history_address = refl

abbrev elsewhere : KeyAddress
elsewhere = record { fingerprint = 7; placement = 0 }

elsewhere_differs : address ≢ elsewhere
unfolding address_of
elsewhere_differs e = ground (arith, ap (λ a. a.fingerprint) e)

abbrev history : List Call
history = invalidates key ∷ acquires 20 key l4 ∷ []

commit_superseded_example :
    ((commit (run prepared_plane history) 30 token none).1 ≡ err stale_generation)
    × ((b : KeyAddress)
        → find (commit (run prepared_plane history) 30 token none).0 b
          ≡ find (run prepared_plane history) b)
commit_superseded_example =
    commit_superseded prepared_plane (invalidates key) (acquires 20 key l4 ∷ []) address
      prepared_entry prepared_plane-IsConsistent.shaped invalidates_target prepared_found
      (unfold Supersedes in tt) (unfold AllAssignNone in (tt, tt)) (omega arith) 30 token none refl
      (omega arith)
