-- ===== src/Manager/Rungs/Accesses.antt =====
-- An access to a rung in `src/manager.rs` leaves the plane alone.
use the_six.Base.{ℕ, ◌≡◌, refl, none, some, map, get_or, Option-cases, inl, inr}
use the_six.Base.Result.{Result}
use the_six.Manager.{Shared}
use the_six.Manager.Rungs.{on_index}

module _ {S : Type 0} where
  pub plane-on_index :
      {A : Type 0} (idx : ℕ) (access : S → ℕ → S × Result A) (s : Shared S)
      → (on_index idx access s).0.plane ≡ s.plane
  unfolding on_index
  plane-on_index idx access s = elim (Option-cases (get_or (map some s.rungs) idx none)) [
    | inl missing ↦ rw (on_index, missing) refl
    | inr (rung, found) ↦ rw (on_index, found) refl
  ]
