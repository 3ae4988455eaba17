-- ===== src/Manager.antt =====
-- `src/manager.rs`: the cache manager over the plane, the registry of rungs and the rungs. Here is the
-- state that a task of it works on, what happens at an await, and how a task ends.
pub mod Rungs
pub mod Reads
pub mod Evictions
pub mod Writes
pub mod Moves
pub mod Populate
pub mod Refresh
pub mod Maintains
pub mod Operations
pub mod Drops
pub mod Returns
use the_six.Base.{ℕ, Bool, true, false, Option, none, some, List, [], ◌∷◌}
use the_six.Base.Result.{CacheError, Result, ok, err, timeout}
use the_six.Tier.Registry.{TierRegistry}
use the_six.Telemetry.{OperationRecord}
use the_six.Control.Cachelito.{Cachelito}

-- What all tasks share: the plane, the registry, the states of the bound rungs in the order of the
-- manager's vector, the clock, and the records that the telemetry sink was given, in order.
pub record Shared (S : Type 0) : Type 0 where
  pub plane : Cachelito
  pub registry : TierRegistry
  pub rungs : List S
  pub now : ℕ
  pub log : List OperationRecord

-- How an await ends: the future is ready; or the bound on the wait runs out; or the whole task is
-- dropped. In the last two the future may have done its work before that, or not.
pub data Fate : Type 0 where
  completes : Fate
  expires leaves : Bool → Fate

-- An await: what other tasks and the clock do before the awaited future works and after it.
pub record Await (S : Type 0) : Type 0 where
  pub before : Shared S → Shared S
  pub after : Shared S → Shared S
  pub fate : Fate

-- A task's view: the shared state, and what happens at its next awaits. Past them it runs alone.
pub record World (S : Type 0) : Type 0 where
  pub shared : Shared S
  pub schedule : List (Await S)

-- How a task ends: it returns, returns an error early, or is dropped at an await.
pub data Exit (A : Type 0) : Type 0 where
  returns : A → Exit A
  raises : CacheError → Exit A
  drops : Exit A

abbrev pub Task : Type 0 → Type 0 → Type 0
Task S A = World S → Exit A × World S

abbrev pub exit_of : {A : Type 0} → Result A → Exit A
exit_of (ok a) = returns a
exit_of (err e) = raises e

-- The matches on an option and on a result.
abbrev pub option_case : {A B : Type 0} → Option A → (A → B) → B → B
option_case (some a) f b = f a
option_case none f b = b

abbrev pub result_case : {A B : Type 0} → Result A → (A → B) → (CacheError → B) → B
result_case (ok a) f g = f a
result_case (err e) f g = g e

-- The fate of an await without a bound on its wait.
abbrev pub unbounded_fate : Fate → Fate
unbounded_fate completes = completes
unbounded_fate (expires landed) = completes
unbounded_fate (leaves landed) = leaves landed

module _ {S : Type 0} where
  unfoldable pub pure : {A : Type 0} → A → Task S A
  pure a w = (returns a, w)

  unfoldable pub raise : {A : Type 0} → CacheError → Task S A
  raise e w = (raises e, w)

  unfoldable pub lift : {A : Type 0} → Result A → Task S A
  lift r w = (exit_of r, w)

  -- What follows a task that returned.
  abbrev pub continue_with : {A B : Type 0} → Exit A × World S → (A → Task S B) → Exit B × World S
  continue_with (returns a, w) f = f a w
  continue_with (raises e, w) f = (raises e, w)
  continue_with (drops, w) f = (drops, w)

  infixl 5 ◌>>=◌ ◌>>◌
  unfoldable pub ◌>>=◌ : {A B : Type 0} → Task S A → (A → Task S B) → Task S B
  ◌>>=◌ m f w = continue_with (m w) f

  unfoldable pub ◌>>◌ : {B : Type 0} → Task S (Unit {0}) → Task S B → Task S B
  unfolding ◌>>=◌
  m >> k = m >>= λ _. k

  abbrev pub caught : {A : Type 0} → Exit A × World S → Exit (Result A) × World S
  caught (returns a, w) = (returns (ok a), w)
  caught (raises e, w) = (returns (err e), w)
  caught (drops, w) = (drops, w)

  -- The `Result` of a call as a value.
  unfoldable pub attempt : {A : Type 0} → Task S A → Task S (Result A)
  attempt m w = caught (m w)

  abbrev pub released : {A : Type 0} → (Shared S → Shared S) → Exit A × World S → Exit A × World S
  released release (returns a, w) = (returns a, w)
  released release (raises e, w) = (raises e, record w { shared = release w.shared })
  released release (drops, w) = (drops, record w { shared = release w.shared })

  -- A guard that is armed while `m` runs, and disarmed where `m` returns.
  unfoldable pub guarded : {A : Type 0} → (Shared S → Shared S) → Task S A → Task S A
  guarded release m w = released release (m w)

  unfoldable pub gets : {A : Type 0} → (Shared S → A) → Task S A
  gets f w = (returns (f w.shared), w)

  -- Work on the shared state that awaits nothing.
  unfoldable pub now_do : {A : Type 0} → (Shared S → Shared S × Result A) → Task S A
  now_do f w = (exit_of (f w.shared).1, record w { shared = (f w.shared).0 })

  -- A future that has worked, or not.
  abbrev pub worked : {A : Type 0} → Bool → (Shared S → Shared S × Result A) → Shared S → Shared S
  worked true f s = (f s).0
  worked false f s = s

  abbrev pub settled :
      {A : Type 0}
      → Await S
      → List (Await S)
      → (Shared S → Shared S × Result A)
      → Fate
      → Shared S
      → Exit A × World S
  settled a rest f completes s =
      (exit_of (f (a.before s)).1, record { shared = a.after (f (a.before s)).0; schedule = rest })
  settled a rest f (expires landed) s =
      (raises timeout, record { shared = a.after (worked landed f (a.before s)); schedule = rest })
  settled a rest f (leaves landed) s =
      (drops, record { shared = a.after (worked landed f (a.before s)); schedule = rest })

  abbrev pub awaited :
      {A : Type 0}
      → (Fate → Fate)
      → (Shared S → Shared S × Result A)
      → Shared S
      → List (Await S)
      → Exit A × World S
  awaited bound f s [] = (exit_of (f s).1, record { shared = (f s).0; schedule = [] })
  awaited bound f s (a ∷ rest) = settled a rest f (bound a.fate) s

  -- `self.bounded(future).await`.
  unfoldable pub bounded : {A : Type 0} → (Shared S → Shared S × Result A) → Task S A
  bounded f w = awaited (λ fate. fate) f w.shared w.schedule

  unfoldable pub unbounded : {A : Type 0} → (Shared S → Shared S × Result A) → Task S A
  unbounded f w = awaited unbounded_fate f w.shared w.schedule
