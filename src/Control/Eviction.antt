-- ===== src/Control/Eviction.antt =====
-- Which entries may be evicted, and what ends a claim: `reserve_eviction` and
-- `release_population_claim` of `src/control/cachelito.rs`.
use the_six.Base.{◌+◌, ◌≡◌, ◌⊎◌, true, false, none, some, arith, ◌∙◌, inl, inr, ap}
use the_six.Base.Result.{ok}
use the_six.Entry.{ready, stale, prepared, failed}
use the_six.Integrity.{KeyAddress}
use the_six.Control.ControlEntry.{ControlEntry, state_of, intent_of, next_generation}
use the_six.Control.Handlers.{release_claim_entry, reserve_eviction_entry}
use the_six.Control.Cachelito.{Cachelito, release_population_claim, reserve_eviction}
use the_six.Control.Cachelito.Lookup.{find, IsWellFormed}
use the_six.Control.Cachelito.Outcomes.{
  reserve-Outcome, release_claim-Outcome, reserve_still, release_claim_still,
}

-- What an eviction leaves of the entry that it reserves.
pub record Reserved (before e : ControlEntry) : Type 0 where
  pub state : state_of e ≡ stale
  pub generation : e.generation ≡ next_generation before.generation
  pub tier : e.tier ≡ before.tier
  pub owner : e.population_owner ≡ false
  pub woken : e.notified ≡ before.notified + 1

-- An entry that may be evicted is ready, and neither a population nor an intent holds it.
pub record IsEvictable (e : ControlEntry) : Type 0 where
  pub state : state_of e ≡ ready
  pub owner : e.population_owner ≡ false
  pub intent : intent_of e ≡ none

reserve_entry-cases :
    (e : ControlEntry)
    → (IsEvictable e
        × ((reserve_eviction_entry e).1 ≡ true)
        × Reserved e (reserve_eviction_entry e).0)
      ⊎ ((IsEvictable e → ⊥) × (reserve_eviction_entry e ≡ (e, false)))
unfolding reserve_eviction_entry
reserve_entry-cases e = ground arith

-- What the release of a claim leaves of the entry.
pub record Released (before e : ControlEntry) : Type 0 where
  pub state : state_of e ≡ failed
  pub generation : e.generation ≡ next_generation before.generation
  pub owner : e.population_owner ≡ false
  pub intent : intent_of e ≡ intent_of before
  pub woken : e.notified ≡ before.notified + 1

release_claim_entry-cases :
    (e : ControlEntry)
    → ((state_of e ≡ prepared)
        × (e.population_owner ≡ true)
        × ((release_claim_entry e).1 ≡ true)
        × Released e (release_claim_entry e).0)
      ⊎ (((state_of e ≡ prepared) × (e.population_owner ≡ true) → ⊥)
          × (release_claim_entry e ≡ (e, false)))
unfolding release_claim_entry intent_of
release_claim_entry-cases e = ground arith

module _ {c : Cachelito} (w : IsWellFormed c) (a : KeyAddress) (e : ControlEntry)
    (found : find c a ≡ some e) where
  -- An eviction is granted exactly for an entry that is ready and that neither a population nor an
  -- intent holds. It makes the entry stale, at the next generation; elsewhere no entry changes.
  pub reserve_eviction_iff :
      (IsEvictable e
        × ((reserve_eviction c a).1 ≡ ok true)
        × ((e' : ControlEntry) × (find (reserve_eviction c a).0 a ≡ some e') × Reserved e e'))
      ⊎ ((IsEvictable e → ⊥)
          × ((reserve_eviction c a).1 ≡ ok false)
          × ((b : KeyAddress) → find (reserve_eviction c a).0 b ≡ find c b))
  reserve_eviction_iff =
      let out = reserve-Outcome w a e found in
      elim (reserve_entry-cases e) [
        | inl (can, granted, reserved) ↦
            inl (can, out.0 ∙ ap ok granted, ((reserve_eviction_entry e).0, out.1, reserved))
        | inr (cannot, refused) ↦ inr (
          cannot,
          out.0 ∙ ap (λ r. ok r.1) refused,
          reserve_still w a e found (ap (λ r. r.0) refused),
        )
      ]

  -- A claim is released exactly where the entry is prepared and owned. The entry is then failed, at
  -- the next generation and without owner, and it keeps the intent; elsewhere no entry changes.
  pub release_population_claim_iff :
      ((state_of e ≡ prepared)
        × (e.population_owner ≡ true)
        × ((release_population_claim c a).1 ≡ ok true)
        × ((e' : ControlEntry) × (find (release_population_claim c a).0 a ≡ some e')
            × Released e e'))
      ⊎ (((state_of e ≡ prepared) × (e.population_owner ≡ true) → ⊥)
          × ((release_population_claim c a).1 ≡ ok false)
          × ((b : KeyAddress) → find (release_population_claim c a).0 b ≡ find c b))
  release_population_claim_iff =
      let out = release_claim-Outcome w a e found in
      elim (release_claim_entry-cases e) [
        | inl (state, owner, granted, released) ↦
            inl (state, owner, out.0 ∙ ap ok granted, ((release_claim_entry e).0, out.1, released))
        | inr (cannot, refused) ↦ inr (
          cannot,
          out.0 ∙ ap (λ r. ok r.1) refused,
          release_claim_still w a e found (ap (λ r. r.0) refused),
        )
      ]
