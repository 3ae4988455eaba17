-- ===== src/Control/Cachelito/Outcomes.antt =====
-- What the calls of `Cachelito` return, and the entry that they leave, in terms of the handlers.
use the_six.Base.{ℕ, ◌≡◌, Bool, true, Option, none, some, arith, List, false, ◌∙◌}
use the_six.Base.Result.{CacheError, Result, ok, err, miss, configuration_error}
use the_six.Tier.{TierId}
use the_six.Entry.{IntentKind, CommitToken}
use the_six.Integrity.{KeyAddress}
use the_six.Control.ControlEntry.{ControlEntry}
use the_six.Control.Handlers.{
  acquire_entry, publish_entry, release_claim_entry, reserve_eviction_entry, prepare_entry,
  commit_entry, abort_entry, abort_intent_entry,
}
use the_six.Control.Handlers.Address.{
  address-acquire, address-release_claim, address-reserve_eviction, address-abort,
  address-abort_intent,
}
use the_six.Control.Cachelito.{
  Cachelito, address_for, settle, settle_with, done, report, acquire, publish, prepare, commit,
  release_population_claim, reserve_eviction, abort_inner, abort_intent_by_address,
}
use the_six.Control.Cachelito.Lookup.{find, IsWellFormed}
use the_six.Control.Cachelito.Calls.{
  has_room, or_new, KeepsAddress, at_entry-Outcome, at_created-Outcome, result-at_created,
  find-at_entry_still, result-at_entry,
}

abbrev pub Outcome :
    {R : Type 0} → KeyAddress → Cachelito × Result R → ControlEntry × Result R → Type 0
Outcome a call handled = (call.1 ≡ handled.1) × (find call.0 a ≡ some handled.0)

module _ {c : Cachelito} (w : IsWellFormed c) (now : ℕ) where
  pub settle-commit :
      (token : CommitToken) (ttl : Option ℕ)
      → KeepsAddress (λ e. settle e (commit_entry now token ttl e))
  unfolding commit_entry
  settle-commit token ttl e = ground arith

  pub commit-Outcome :
      (token : CommitToken) (ttl : Option ℕ) (e : ControlEntry)
      → find c token.address ≡ some e
      → Outcome token.address (commit c now token ttl) (settle e (commit_entry now token ttl e))
  unfolding commit
  commit-Outcome token ttl e found =
      at_entry-Outcome w token.address (λ x. settle x (commit_entry now token ttl x))
        (settle-commit token ttl) (err miss) e found

  pub commit_missing :
      (token : CommitToken) (ttl : Option ℕ)
      → find c token.address ≡ none
      → (commit c now token ttl).1 ≡ err miss
  unfolding commit
  commit_missing token ttl missing =
      result-at_entry w token.address (λ x. settle x (commit_entry now token ttl x))
        (settle-commit token ttl) (err miss)
      ∙ ground arith

  pub commit_still :
      (token : CommitToken) (ttl : Option ℕ) (e : ControlEntry)
      → find c token.address ≡ some e
      → (settle e (commit_entry now token ttl e)).0 ≡ e
      → (b : KeyAddress) → find (commit c now token ttl).0 b ≡ find c b
  unfolding commit
  commit_still token ttl e found =
      find-at_entry_still w token.address (λ x. settle x (commit_entry now token ttl x))
        (settle-commit token ttl) (err miss) e found

  settle-publish :
      (g : ℕ) (tier : TierId) (ttl : Option ℕ)
      → KeepsAddress (λ e. settle e (publish_entry now g tier ttl e))
  unfolding publish_entry
  settle-publish g tier ttl e = ground arith

  pub publish-Outcome :
      (key : List ℕ) (g : ℕ) (tier : TierId) (ttl : Option ℕ) (e : ControlEntry)
      → find c (address_for c key) ≡ some e
      → Outcome
          (address_for c key)
          (publish c now key g tier ttl)
          (settle e (publish_entry now g tier ttl e))
  unfolding publish
  publish-Outcome key g tier ttl e found =
      at_entry-Outcome w (address_for c key) (λ x. settle x (publish_entry now g tier ttl x))
        (settle-publish g tier ttl) (err miss) e found

  pub publish_still :
      (key : List ℕ) (g : ℕ) (tier : TierId) (ttl : Option ℕ) (e : ControlEntry)
      → find c (address_for c key) ≡ some e
      → (settle e (publish_entry now g tier ttl e)).0 ≡ e
      → (b : KeyAddress) → find (publish c now key g tier ttl).0 b ≡ find c b
  unfolding publish
  publish_still key g tier ttl e found =
      find-at_entry_still w (address_for c key) (λ x. settle x (publish_entry now g tier ttl x))
        (settle-publish g tier ttl) (err miss) e found

  settle-prepare :
      (g : Option ℕ) (tier : TierId) (kind : IntentKind)
      → KeepsAddress (λ e. settle_with e (prepare_entry now g tier kind e))
  unfolding prepare_entry
  settle-prepare g tier kind e = ground arith

  pub prepare-Outcome :
      (key : List ℕ) (g : Option ℕ) (tier : TierId) (kind : IntentKind)
      → has_room c (address_for c key) ≡ true
      → let e = or_new (address_for c key) (find c (address_for c key)) in
        Outcome
          (address_for c key)
          (prepare c now key g tier kind)
          (settle_with e (prepare_entry now g tier kind e))
  unfolding prepare
  prepare-Outcome key g tier kind =
      at_created-Outcome w (address_for c key)
        (λ x. settle_with x (prepare_entry now g tier kind x)) (settle-prepare g tier kind)

  pub prepare_full :
      (key : List ℕ) (g : Option ℕ) (tier : TierId) (kind : IntentKind)
      → has_room c (address_for c key) ≡ false
      → (prepare c now key g tier kind).1 ≡ err configuration_error
  unfolding prepare
  prepare_full key g tier kind full =
      result-at_created w (address_for c key) (λ x. settle_with x (prepare_entry now g tier kind x))
        (settle-prepare g tier kind)
      ∙ ground arith

  pub acquire-Outcome :
      (key : List ℕ) (tier : TierId)
      → has_room c (address_for c key) ≡ true
      → let e = or_new (address_for c key) (find c (address_for c key)) in
        Outcome (address_for c key) (acquire c now key tier) (report (acquire_entry now tier e))
  unfolding acquire
  acquire-Outcome key tier =
      at_created-Outcome w (address_for c key) (λ x. report (acquire_entry now tier x))
        (λ x. address-acquire x now tier)

module _ {c : Cachelito} (w : IsWellFormed c) (a : KeyAddress) (e : ControlEntry)
    (found : find c a ≡ some e) where
  pub reserve-Outcome : Outcome a (reserve_eviction c a) (report (reserve_eviction_entry e))
  unfolding reserve_eviction
  reserve-Outcome =
      at_entry-Outcome w a (λ x. report (reserve_eviction_entry x)) address-reserve_eviction
        (ok false) e found

  pub release_claim-Outcome :
      Outcome a (release_population_claim c a) (report (release_claim_entry e))
  unfolding release_population_claim
  release_claim-Outcome =
      at_entry-Outcome w a (λ x. report (release_claim_entry x)) address-release_claim (ok false) e
        found

  pub abort_intent-Outcome :
      (error : CacheError)
      → Outcome a (abort_intent_by_address c a error) (report (abort_intent_entry error e))
  unfolding abort_intent_by_address
  abort_intent-Outcome error =
      at_entry-Outcome w a (λ x. report (abort_intent_entry error x))
        (λ x. address-abort_intent x error) (ok false) e found

  pub reserve_still :
      (reserve_eviction_entry e).0 ≡ e
      → (b : KeyAddress) → find (reserve_eviction c a).0 b ≡ find c b
  unfolding reserve_eviction
  reserve_still =
      find-at_entry_still w a (λ x. report (reserve_eviction_entry x)) address-reserve_eviction
        (ok false) e found

  pub release_claim_still :
      (release_claim_entry e).0 ≡ e
      → (b : KeyAddress) → find (release_population_claim c a).0 b ≡ find c b
  unfolding release_population_claim
  release_claim_still =
      find-at_entry_still w a (λ x. report (release_claim_entry x)) address-release_claim (ok false)
        e found

pub abort-Outcome :
    {c : Cachelito} (w : IsWellFormed c) (token : CommitToken) (error : CacheError) (clean : Bool)
    (e : ControlEntry)
    → find c token.address ≡ some e
    → Outcome token.address (abort_inner c token error clean) (done (abort_entry error clean e))
unfolding abort_inner
abort-Outcome w token error clean e found =
    at_entry-Outcome w token.address (λ x. done (abort_entry error clean x))
      (λ x. address-abort x error clean) (ok tt) e found

pub abort_still :
    {c : Cachelito} (w : IsWellFormed c) (token : CommitToken) (error : CacheError) (clean : Bool)
    (e : ControlEntry)
    → find c token.address ≡ some e
    → abort_entry error clean e ≡ e
    → (b : KeyAddress) → find (abort_inner c token error clean).0 b ≡ find c b
unfolding abort_inner
abort_still w token error clean e found =
    find-at_entry_still w token.address (λ x. done (abort_entry error clean x))
      (λ x. address-abort x error clean) (ok tt) e found
