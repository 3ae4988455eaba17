-- ===== src/Tests/Protocol.antt =====
-- Instances of the theorems on the two-phase protocol.
use the_six.Base.{◌≡◌, ◌↔◌, refl, false, none, some}
use the_six.Base.Result.{ok, err, stale_generation, timeout}
use the_six.Tier.{l2}
use the_six.Entry.{write, prepared}
use the_six.Integrity.{KeyAddress}
use the_six.Control.ControlEntry.{ControlEntry, state_of}
use the_six.Control.Cachelito.{address_for, commit, abort_inner, abort_proven_clean}
use the_six.Control.Cachelito.Lookup.{find}
use the_six.Control.TwoPhase.{subject, Committed}
use the_six.Control.TwoPhase.Commit.{IsGood, prepare-commit, commit_iff}
use the_six.Control.TwoPhase.Abort.{
  Restored, abort-commit, prepare-abort_proven_clean, abort_proven_clean-commit_iff,
}
use the_six.Tests.Plane.{
  plane, key, token, plane-IsConsistent, issued, prepared_plane, prepared_plane-IsConsistent,
  prepared_entry, prepared_found, committed_plane, committed,
}

prepare-commit_example :
    ((commit prepared_plane 12 token (some 50)).1 ≡ ok tt)
    × ((e : ControlEntry) × (find
            (commit prepared_plane 12 token (some 50)).0
            (address_for plane key)
          ≡ some e)
        × Committed (subject plane key) 12 l2 (some 50) e)
prepare-commit_example =
    prepare-commit plane-IsConsistent 10 key none l2 write token issued 12 (some 50)

commit_iff_example :
    (((commit prepared_plane 12 token none).1 ≡ ok tt) ↔ IsGood token prepared_entry)
    × ((IsGood token prepared_entry → ⊥)
        → ((commit prepared_plane 12 token none).1 ≡ err stale_generation)
          × ((b : KeyAddress)
              → find (commit prepared_plane 12 token none).0 b ≡ find prepared_plane b))
commit_iff_example =
    commit_iff prepared_plane-IsConsistent.shaped 12 token none prepared_entry prepared_found

abort-commit_example :
    ((abort_inner committed_plane token timeout false).1 ≡ ok tt)
    × ((b : KeyAddress)
        → find (abort_inner committed_plane token timeout false).0 b ≡ find committed_plane b)
abort-commit_example =
    abort-commit prepared_plane-IsConsistent.shaped token timeout 12 (some 50) token false committed
      refl

prepare-abort_proven_clean_example :
    ((abort_proven_clean prepared_plane token timeout).1 ≡ ok tt)
    × ((e : ControlEntry) × (find
            (abort_proven_clean prepared_plane token timeout).0
            (address_for plane key)
          ≡ some e)
        × Restored (subject plane key) timeout e)
prepare-abort_proven_clean_example =
    prepare-abort_proven_clean plane-IsConsistent 10 key none l2 write token timeout issued

abort_proven_clean-commit_iff_example :
    (((commit (abort_proven_clean prepared_plane token timeout).0 13 token none).1 ≡ ok tt)
      ↔ (state_of (subject plane key) ≡ prepared))
    × ((state_of (subject plane key) ≡ prepared → ⊥)
        → (commit (abort_proven_clean prepared_plane token timeout).0 13 token none).1
          ≡ err stale_generation)
abort_proven_clean-commit_iff_example =
    abort_proven_clean-commit_iff plane-IsConsistent 10 13 key none l2 write token timeout none
      issued
