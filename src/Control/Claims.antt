-- ===== src/Control/Claims.antt =====
-- Who may populate or evict an entry: `acquire`, `release_population_claim` and `reserve_eviction` of
-- `src/control/cachelito.rs`.
use the_six.Base.{
  ℕ, ◌≤◌, ◌≡◌, refl, ◌⊎◌, true, false, some, List, arith, ◌∙◌, sym, Bool-cases, Option-cases, inl,
  inr, ◌==◌, ap,
}
use the_six.Base.Result.{ok}
use the_six.Tier.{TierId}
use the_six.Entry.{in_flight, state_code, is_claimable}
use the_six.Control.ControlEntry.{ControlEntry, new_entry, state_of, tier_of, next_generation}
use the_six.Control.Handlers.{ControlSnapshot, claim_entry, try_claim, snapshot_of, acquire_entry}
use the_six.Control.Handlers.Sound.{IsSound, new_entry-IsSound}
use the_six.Control.Cachelito.{Cachelito, address_for, acquire}
use the_six.Control.Cachelito.Lookup.{find, IsWellFormed}
use the_six.Control.Cachelito.Calls.{has_room}
use the_six.Control.Cachelito.Outcomes.{acquire-Outcome}
use the_six.Control.History.{acquires, step}
use the_six.Control.History.Step.{step-IsWellFormed, address_for-step, IsConsistent}
use the_six.Control.TwoPhase.{subject, tier_of-as_usize}

-- What `acquire` returns to a caller who is to populate the entry, and to one who is not.
pub record Granted (before : ControlEntry) (tier : TierId) (snapshot : ControlSnapshot)
    (e : ControlEntry) : Type 0 where
  pub claims : snapshot.population_owner ≡ true
  pub seen : snapshot.state ≡ in_flight
  pub advanced : snapshot.generation ≡ next_generation before.generation
  pub generation : e.generation ≡ snapshot.generation
  pub state : state_of e ≡ in_flight
  pub owner : e.population_owner ≡ true
  pub target : tier_of e ≡ tier

pub record Observed (before : ControlEntry) (snapshot : ControlSnapshot) (e : ControlEntry)
    : Type 0 where
  pub claims : snapshot.population_owner ≡ false
  pub seen : snapshot.state ≡ state_of before
  pub generation : snapshot.generation ≡ before.generation
  pub unchanged : e ≡ before

state_code-state_of : (e : ControlEntry) → e.state ≤ 5 → (e.state == state_code (state_of e)) ≡ true
unfolding state_code state_of
state_code-state_of e h = ground arith

try_claim-Granted :
    (e : ControlEntry) (now : ℕ) (tier : TierId)
    → (e.state == state_code (state_of e)) ≡ true
    → Granted e tier (try_claim now tier e).1 (try_claim now tier e).0
unfolding try_claim claim_entry snapshot_of
try_claim-Granted e now tier h =
    rw (h, try_claim)
      (record {
        claims = refl;
        seen = refl;
        advanced = refl;
        generation = refl;
        state = unfold state_of in refl;
        owner = refl;
        target = tier_of-as_usize (claim_entry now tier e) tier refl;
      })

acquire_entry-claimable :
    (e : ControlEntry) (now : ℕ) (tier : TierId)
    → is_claimable (state_of e) ≡ true
    → acquire_entry now tier e ≡ try_claim now tier e
unfolding acquire_entry is_claimable
acquire_entry-claimable e now tier h = ground arith

acquire_entry-Granted :
    (e : ControlEntry) (now : ℕ) (tier : TierId)
    → IsSound e
    → is_claimable (state_of e) ≡ true
    → Granted e tier (acquire_entry now tier e).1 (acquire_entry now tier e).0
acquire_entry-Granted e now tier v h =
    rw (acquire_entry-claimable e now tier h)
      (try_claim-Granted e now tier (state_code-state_of e v.state))

acquire_entry-Observed :
    (e : ControlEntry) (now : ℕ) (tier : TierId)
    → is_claimable (state_of e) ≡ false
    → Observed e (acquire_entry now tier e).1 (acquire_entry now tier e).0
unfolding acquire_entry is_claimable
acquire_entry-Observed e now tier h = ground arith

acquire_found :
    {c : Cachelito} (w : IsWellFormed c) (now : ℕ) (key : List ℕ) (tier : TierId) (e : ControlEntry)
    → find c (address_for c key) ≡ some e
    → ((acquire c now key tier).1 ≡ ok (acquire_entry now tier e).1)
      × (find (acquire c now key tier).0 (address_for c key) ≡ some (acquire_entry now tier e).0)
unfolding has_room
acquire_found {c = c} w now key tier e found =
    let out = acquire-Outcome w now key tier (rw found refl) in
    let same : subject c key ≡ e = rw found refl in rw (← same) out

module _ {c : Cachelito} (v : IsConsistent c) where
  subject-IsSound : (key : List ℕ) → IsSound (subject c key)
  unfolding new_entry
  subject-IsSound key = elim (Option-cases (find c (address_for c key))) [
    | inl missing ↦ rw missing (new_entry-IsSound (address_for c key))
    | inr (e, found) ↦ rw found (v.entry (address_for c key) e found).1
  ]

  module _ (now : ℕ) (key : List ℕ) (tier : TierId)
      (room : has_room c (address_for c key) ≡ true) where
    -- A call of `acquire` grants the population exactly where the state of the entry can be claimed;
    -- elsewhere it reports the entry and leaves it as it was. One that is granted advances the
    -- generation and makes the entry in flight on the caller's rung.
    pub acquire-cases :
        (snapshot : ControlSnapshot) × (e : ControlEntry) × ((acquire c now key tier).1
          ≡ ok snapshot)
        × (find (acquire c now key tier).0 (address_for c key) ≡ some e)
        × (((is_claimable (state_of (subject c key)) ≡ true)
              × Granted (subject c key) tier snapshot e)
            ⊎ ((is_claimable (state_of (subject c key)) ≡ false)
                × Observed (subject c key) snapshot e))
    acquire-cases =
        let before = subject c key in
        let out = acquire-Outcome v.shaped now key tier room in
        (
          (acquire_entry now tier before).1,
          (acquire_entry now tier before).0,
          out.0,
          out.1,
          elim (Bool-cases (is_claimable (state_of before))) [
            | inl can ↦ inl (can, acquire_entry-Granted before now tier (subject-IsSound key) can)
            | inr cannot ↦ inr (cannot, acquire_entry-Observed before now tier cannot)
          ],
        )

    acquire-IsWellFormed : IsWellFormed (acquire c now key tier).0
    unfolding step
    acquire-IsWellFormed = step-IsWellFormed c v.shaped (acquires now key tier)

    acquire-address : address_for (acquire c now key tier).0 key ≡ address_for c key
    unfolding step
    acquire-address = address_for-step c (acquires now key tier) key

    -- A population has one owner: after a granted call, every further `acquire` of the key reports
    -- no ownership and leaves the entry as it was.
    pub acquire_twice :
        (later : ℕ) (other : TierId)
        → is_claimable (state_of (subject c key)) ≡ true
        → let c' = (acquire c now key tier).0 in
          (snapshot : ControlSnapshot) × ((acquire c' later key other).1 ≡ ok snapshot)
          × (snapshot.population_owner ≡ false)
          × (snapshot.state ≡ in_flight)
          × (find (acquire c' later key other).0 (address_for c key) ≡ find c' (address_for c key))
    acquire_twice later other claimable =
        let before = subject c key in
        let out = acquire-Outcome v.shaped now key tier room in
        let granted = acquire_entry-Granted before now tier (subject-IsSound key) claimable in
        let e = (acquire_entry now tier before).0 in
        let found = ap (find (acquire c now key tier).0) acquire-address ∙ out.1 in
        let again = acquire_found acquire-IsWellFormed later key other e found in
        let seen =
          acquire_entry-Observed e later other
            (ap is_claimable granted.state ∙ unfold is_claimable in refl) in
        (
          (acquire_entry later other e).1,
          again.0,
          seen.claims,
          seen.seen ∙ granted.state,
          ap (find (acquire (acquire c now key tier).0 later key other).0) (sym acquire-address)
              ∙ again.1
              ∙ ap some seen.unchanged
              ∙ sym out.1,
        )
