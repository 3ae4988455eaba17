-- ===== src/Control/TwoPhase/Abort.antt =====
-- The aborts on the plane.
use the_six.Base.{
  ℕ, ◌+◌, ◌≡◌, Bool, true, false, Option, none, some, List, arith, ◌∙◌, sym, Option-cases, inl, inr,
  ap, ◌↔◌,
}
use the_six.Base.Result.{CacheError, ok, err, stale_generation}
use the_six.Tier.{TierId}
use the_six.Entry.{ready, prepared, failed, IntentKind, CommitToken}
use the_six.Integrity.{KeyAddress}
use the_six.Control.ControlEntry.{
  ControlEntry, state_of, tier_of, ttl_of, intent_of, last_error_of, encode_error, decode_error,
  population_timestamp_of, next_generation,
}
use the_six.Control.Handlers.{commit_entry, abort_entry, abort_intent_entry}
use the_six.Control.Cachelito.{
  Cachelito, address_for, settle, prepare, commit, abort, abort_proven_clean, abort_inner,
  abort_intent_by_address,
}
use the_six.Control.Cachelito.Lookup.{find, IsWellFormed}
use the_six.Control.Cachelito.Outcomes.{
  commit-Outcome, abort-Outcome, abort_still, abort_intent-Outcome, commit_missing,
}
use the_six.Control.History.{commits, prepares, step, aborts, aborts_intent}
use the_six.Control.History.Step.{step-IsWellFormed, IsConsistent}
use the_six.Control.TwoPhase.{subject, Prepared}
use the_six.Control.TwoPhase.Commit.{prepare-Prepared, commit_entry-cases, IsGood, commit_iff}

-- What a conservative abort leaves of a prepared entry.
pub record Aborted (before : ControlEntry) (error : CacheError) (e : ControlEntry) : Type 0 where
  pub state : state_of e ≡ failed
  pub generation : e.generation ≡ next_generation before.generation
  pub intent : intent_of e ≡ none
  pub owner : e.population_owner ≡ false
  pub reason : last_error_of e ≡ decode_error (encode_error (some error))
  pub tier : e.tier ≡ before.tier
  pub woken : e.notified ≡ before.notified + 1

-- What an abort that is proven clean restores, of the entry before the preparation.
pub record Restored (before : ControlEntry) (error : CacheError) (e : ControlEntry) : Type 0 where
  pub state : state_of e ≡ state_of before
  pub generation : e.generation ≡ before.generation
  pub tier : tier_of e ≡ tier_of before
  pub ttl : ttl_of e ≡ ttl_of before
  pub populated : population_timestamp_of e ≡ population_timestamp_of before
  pub intent : intent_of e ≡ none
  pub owner : e.population_owner ≡ false
  pub reason : last_error_of e ≡ decode_error (encode_error (some error))

abort_entry-Restored :
    (before : ControlEntry) (error : CacheError) (t : TierId) (e : ControlEntry)
    (token : CommitToken)
    → Prepared before t e token
    → Restored before error (abort_entry error true e)
unfolding abort_entry intent_of last_error_of tier_of ttl_of population_timestamp_of
abort_entry-Restored before error t e token p = ground arith

abort_entry_still :
    (e : ControlEntry) (error : CacheError) (clean : Bool)
    → (state_of e ≡ prepared → ⊥)
    → abort_entry error clean e ≡ e
unfolding abort_entry
abort_entry_still e error clean h = ground arith

module _ {c : Cachelito} (w : IsWellFormed c) (token : CommitToken) (error : CacheError) where
  -- After a conservative abort no commit at its address succeeds, with whatever token, until the
  -- entry is prepared again.
  pub commit-abort :
      (e : ControlEntry) (now : ℕ) (other : CommitToken) (ttl : Option ℕ)
      → find c token.address ≡ some e
      → other.address ≡ token.address
      → (commit (abort c token error).0 now other ttl).1 ≡ err stale_generation
  unfolding abort step IsGood abort_entry
  commit-abort e now other ttl found same =
      let w' = step-IsWellFormed c w (aborts token error false) in
      let out = abort-Outcome w token error false e found in
      let e' = abort_entry error false e in
      let out' = commit-Outcome w' now other ttl e' (rw same out.1) in
      elim (commit_entry-cases e' now other ttl) [
        | inl (good, success, state) ↦ absurd (ground (arith, good.1))
        | inr (bad, refused) ↦ ground (arith, out'.0, refused)
      ]

  -- An abort that follows a commit changes no entry: what was committed stays.
  pub abort-commit :
      (now : ℕ) (ttl : Option ℕ) (other : CommitToken) (clean : Bool)
      → (commit c now token ttl).1 ≡ ok tt
      → other.address ≡ token.address
      → let c' = (commit c now token ttl).0 in
        ((abort_inner c' other error clean).1 ≡ ok tt)
        × ((b : KeyAddress) → find (abort_inner c' other error clean).0 b ≡ find c' b)
  unfolding step
  abort-commit now ttl other clean success same = elim (Option-cases (find c token.address)) [
    | inl missing ↦ absurd (ground (arith, commit_missing w now token ttl missing))
    | inr (e, found) ↦
        let out = commit-Outcome w now token ttl e found in
        let w' = step-IsWellFormed c w (commits now token ttl) in
        let e' = (settle e (commit_entry now token ttl e)).0 in
        let found' : find (commit c now token ttl).0 other.address ≡ some e' = rw same out.1 in
        let is_ready : state_of e' ≡ ready = ground (arith, commit_entry-cases e now token ttl) in
        (
          (abort-Outcome w' other error clean e' found').0,
          abort_still w' other error clean e' found'
              (abort_entry_still e' error clean (λ h. ground (arith, is_ready, h))),
        )
  ]

module _ {c : Cachelito} (v : IsConsistent c) where
  -- An abort that is proven clean undoes a preparation: the state, the generation, the tier, the
  -- lifetime and the time of population are those from before it. Only the intent and the owner are
  -- cleared, and the error is recorded.
  pub prepare-abort_proven_clean :
      (now : ℕ) (key : List ℕ) (g : Option ℕ) (t : TierId) (k : IntentKind) (token : CommitToken)
      (error : CacheError)
      → (prepare c now key g t k).1 ≡ ok token
      → let r = abort_proven_clean (prepare c now key g t k).0 token error in
        (r.1 ≡ ok tt)
        × ((e : ControlEntry) × (find r.0 (address_for c key) ≡ some e)
            × Restored (subject c key) error e)
  unfolding abort_proven_clean step
  prepare-abort_proven_clean now key g t k token error issued =
      let (e, found, p, at) = prepare-Prepared v now key g t k token issued in
      let w' = step-IsWellFormed c v.shaped (prepares now key g t k) in
      let out = abort-Outcome w' token error true e found in
      (
        out.0,
        (
          abort_entry error true e,
          ap (find (abort_inner (prepare c now key g t k).0 token error true).0) (sym at) ∙ out.1,
          abort_entry-Restored (subject c key) error t e token p,
        ),
      )

abort_intent_entry-twice :
    (e : ControlEntry) (error : CacheError)
    → (abort_intent_entry error (abort_intent_entry error e).0).1 ≡ false
unfolding abort_intent_entry
abort_intent_entry-twice e error = ground arith

-- Two recovery passes do not count one intent twice: the second abort of an intent at an address
-- reports that there was none.
pub abort_intent_by_address-twice :
    {c : Cachelito} (w : IsWellFormed c) (a : KeyAddress) (e : ControlEntry) (error : CacheError)
    → find c a ≡ some e
    → (abort_intent_by_address (abort_intent_by_address c a error).0 a error).1 ≡ ok false
unfolding step
abort_intent_by_address-twice {c = c} w a e error found =
    let w' = step-IsWellFormed c w (aborts_intent a error) in
    let out = abort_intent-Outcome w a e found error in
    let out' = abort_intent-Outcome w' a (abort_intent_entry error e).0 out.1 error in
    out'.0 ∙ ap ok (abort_intent_entry-twice e error)

abort-IsWellFormed :
    {c : Cachelito} (v : IsConsistent c) (now : ℕ) (key : List ℕ) (g : Option ℕ) (t : TierId)
    (k : IntentKind) (token : CommitToken) (error : CacheError)
    → IsWellFormed (abort_proven_clean (prepare c now key g t k).0 token error).0
unfolding abort_proven_clean step
abort-IsWellFormed {c = c} v now key g t k token error =
    step-IsWellFormed (step c (prepares now key g t k))
      (step-IsWellFormed c v.shaped (prepares now key g t k)) (aborts token error true)

-- The token of a preparation that was aborted as proven clean still commits exactly where the entry
-- had been prepared before that preparation; elsewhere its commit is refused.
pub abort_proven_clean-commit_iff :
    {c : Cachelito} (v : IsConsistent c) (now later : ℕ) (key : List ℕ) (g : Option ℕ) (t : TierId)
    (k : IntentKind) (token : CommitToken) (error : CacheError) (ttl : Option ℕ)
    → (prepare c now key g t k).1 ≡ ok token
    → let r = abort_proven_clean (prepare c now key g t k).0 token error in
      (((commit r.0 later token ttl).1 ≡ ok tt) ↔ (state_of (subject c key) ≡ prepared))
      × ((state_of (subject c key) ≡ prepared → ⊥)
          → (commit r.0 later token ttl).1 ≡ err stale_generation)
unfolding IsGood
abort_proven_clean-commit_iff {c = c} v now later key g t k token error ttl issued =
    let (e, found, p, at) = prepare-Prepared v now key g t k token issued in
    let (result, (e', found', r)) = prepare-abort_proven_clean v now key g t k token error issued in
    let c' = (abort_proven_clean (prepare c now key g t k).0 token error).0 in
    let good =
      commit_iff (abort-IsWellFormed v now key g t k token error) later token ttl e'
        (ap (find c') at ∙ found') in
    let same : e'.generation ≡ token.generation = r.generation ∙ sym p.token_generation in
    (
      ((λ h. sym r.state ∙ (good.0.0 h).1), (λ h. good.0.1 (same, r.state ∙ h))),
      λ other. (good.1 (λ q. other (sym r.state ∙ q.1))).0,
    )
