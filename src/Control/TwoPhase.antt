-- ===== src/Control/TwoPhase.antt =====
-- The two-phase protocol of `src/control/cachelito.rs`: `prepare`, and then `commit` or an abort.
pub mod Commit
pub mod Abort
use the_six.Base.{
  ℕ, ◌+◌, ◌%◌, ◌≡◌, refl, true, false, Option, none, some, List, arith, ◌∙◌, ap, ◌==◌, u64_mod,
  if◌then◌else◌, Bool-cases, inl, inr,
}
use the_six.Base.Result.{ok}
use the_six.Tier.{TierId, as_usize, from_index, as_u8}
use the_six.Tier.Codes.{from_index-as_u8, from_usize-as_usize}
use the_six.Entry.{ready, IntentKind, CommitToken}
use the_six.Control.ControlEntry.{
  ControlEntry, state_of, tier_of, ttl_of, set_ttl, intent_of, last_error_of, instant_to_nanos,
  state_of_code,
}
use the_six.Control.Handlers.{prepare_entry, commit_entry, set_target_tier, moved_since}
use the_six.Control.Cachelito.{Cachelito, address_for, settle, settle_with}
use the_six.Control.Cachelito.Lookup.{find}
use the_six.Control.Cachelito.Calls.{or_new}

-- The entry that a call of `prepare` is about, which it creates where there is none.
abbrev pub subject : Cachelito → List ℕ → ControlEntry
subject c key = or_new (address_for c key) (find c (address_for c key))

-- The lifetime that an entry keeps of the one that it is given: 64 bits of nanoseconds, and none for 0.
abbrev pub stored_ttl : Option ℕ → Option ℕ
stored_ttl none = none
stored_ttl (some d) = if d % u64_mod == 0 then none else some (d % u64_mod)

-- What a commit at `now` makes of the entry `before` that was prepared for `tier`.
pub record Committed (before : ControlEntry) (now : ℕ) (target_tier : TierId) (lifetime : Option ℕ)
    (e : ControlEntry) : Type 0 where
  pub state : state_of e ≡ ready
  pub generation : e.generation ≡ before.generation
  pub tier : tier_of e ≡ target_tier
  pub ttl : ttl_of e ≡ stored_ttl lifetime
  pub populated : e.population_timestamp ≡ instant_to_nanos now
  pub intent : intent_of e ≡ none
  pub owner : e.population_owner ≡ false
  pub error : last_error_of e ≡ none
  pub woken : e.notified ≡ before.notified + 1

pub tier_of-as_usize : (e : ControlEntry) (t : TierId) → e.tier ≡ as_usize t → tier_of e ≡ t
unfolding tier_of
tier_of-as_usize e t h = rw (h, from_usize-as_usize t) refl

stored_ttl_lem :
    (e e' : ControlEntry) (ttl : Option ℕ)
    → e'.expiration_nanos ≡ (set_ttl ttl e).expiration_nanos
    → ttl_of e' ≡ stored_ttl ttl
unfolding ttl_of set_ttl
stored_ttl_lem e e' none h = ground arith
stored_ttl_lem e e' (some d) h = ground arith

pub commit_entry-Committed :
    (e : ControlEntry) (now : ℕ) (token : CommitToken) (ttl : Option ℕ) (t : TierId)
    (r : ControlEntry)
    → from_index token.target_tier ≡ some t
    → commit_entry now token ttl e ≡ ok r
    → Committed e now t ttl r
unfolding commit_entry set_target_tier intent_of last_error_of
commit_entry-Committed e now token ttl t r target h =
    ground (arith, tier_of-as_usize r t, stored_ttl_lem e r ttl)

-- What a preparation leaves of `before`, and the token that it returns.
pub record Prepared (before : ControlEntry) (target_tier : TierId) (e : ControlEntry)
    (token : CommitToken) : Type 0 where
  pub state : e.state ≡ 5
  pub generation : e.generation ≡ before.generation
  pub token_generation : token.generation ≡ before.generation
  pub address : token.address ≡ before.address
  pub target : token.target_tier ≡ as_u8 target_tier
  pub owner : e.population_owner ≡ true
  pub previous : state_of_code e.intent_prev_state ≡ state_of before
  pub tier : e.tier ≡ before.tier
  pub ttl : e.expiration_nanos ≡ before.expiration_nanos
  pub populated : e.population_timestamp ≡ before.population_timestamp
  pub woken : e.notified ≡ before.notified

pub prepare_entry-Prepared :
    (e : ControlEntry) (now : ℕ) (g : Option ℕ) (t : TierId) (k : IntentKind) (token : CommitToken)
    → (settle_with e (prepare_entry now g t k e)).1 ≡ ok token
    → Prepared e t (settle_with e (prepare_entry now g t k e)).0 token
unfolding prepare_entry
prepare_entry-Prepared e now g t k token h = elim (Bool-cases (moved_since g e)) [
  | inl moved ↦ absurd (ground arith)
  | inr current ↦ rw current (ground arith)
]

pub Prepared-commit :
    (before : ControlEntry) (now : ℕ) (t : TierId) (ttl : Option ℕ) (e : ControlEntry)
    (token : CommitToken)
    → Prepared before t e token
    → ((settle e (commit_entry now token ttl e)).1 ≡ ok tt)
      × Committed before now t ttl (settle e (commit_entry now token ttl e)).0
unfolding commit_entry
Prepared-commit before now t ttl e token p =
    let target = from_index-as_u8 t in
    let success : commit_entry now token ttl e ≡ ok (settle e (commit_entry now token ttl e)).0 =
      ground arith in
    let r = commit_entry-Committed e now token ttl t _ (ap from_index p.target ∙ target) success in
    (ground arith, ground arith)
