-- ===== src/Control/TwoPhase/Commit.antt =====
-- `prepare` and `commit` on the plane.
use the_six.Base.{
  ℕ, ◌≡◌, ◌↔◌, Option, some, List, arith, ◌∙◌, sym, Bool-cases, Option-cases, inl, inr, ◌⊎◌,
}
use the_six.Base.Result.{ok, err, stale_generation}
use the_six.Tier.{TierId}
use the_six.Entry.{ready, prepared, IntentKind, CommitToken}
use the_six.Integrity.{KeyAddress}
use the_six.Control.ControlEntry.{ControlEntry, state_of, new_entry}
use the_six.Control.Handlers.{prepare_entry, commit_entry}
use the_six.Control.Cachelito.{Cachelito, address_for, settle, settle_with, prepare, commit}
use the_six.Control.Cachelito.Lookup.{find, IsWellFormed}
use the_six.Control.Cachelito.Calls.{has_room}
use the_six.Control.Cachelito.Outcomes.{
  commit-Outcome, commit_still, prepare-Outcome, prepare_full, commit_missing,
}
use the_six.Control.History.{prepares, commits, step}
use the_six.Control.History.Step.{step-IsWellFormed, IsConsistent}
use the_six.Control.TwoPhase.{subject, Committed, Prepared, prepare_entry-Prepared, Prepared-commit}

module _ {c : Cachelito} (v : IsConsistent c) where
  pub subject-address : (key : List ℕ) → (subject c key).address ≡ address_for c key
  unfolding new_entry
  subject-address key = elim (Option-cases (find c (address_for c key))) [
    | inl missing ↦ ground arith
    | inr (e, found) ↦ let at = (v.entry (address_for c key) e found).0 in ground arith
  ]

  module _ (now : ℕ) (key : List ℕ) (g : Option ℕ) (t : TierId) (k : IntentKind)
      (token : CommitToken) (issued : (prepare c now key g t k).1 ≡ ok token) where
    -- A preparation that succeeds leaves its entry prepared.
    pub prepare-Prepared :
        (e : ControlEntry) × (find (prepare c now key g t k).0 token.address ≡ some e)
        × Prepared (subject c key) t e token
        × (token.address ≡ address_for c key)
    prepare-Prepared = elim (Bool-cases (has_room c (address_for c key))) [
      | inl room ↦
          let out = prepare-Outcome v.shaped now key g t k room in
          let p = prepare_entry-Prepared (subject c key) now g t k token (sym out.0 ∙ issued) in
          let at = p.address ∙ subject-address key in
          (
            (settle_with (subject c key) (prepare_entry now g t k (subject c key))).0,
            rw at out.1,
            p,
            at,
          )
      | inr full ↦ absurd (ground (arith, prepare_full v.shaped now key g t k full))
    ]

    prepare-IsWellFormed : IsWellFormed (prepare c now key g t k).0
    unfolding step
    prepare-IsWellFormed = step-IsWellFormed c v.shaped (prepares now key g t k)

    -- A commit of the token that a preparation returned succeeds where nothing came in between. It
    -- makes the entry ready on the target rung with the given lifetime and the clock's time, keeps
    -- its generation, clears the intent, the owner and the error, and wakes the waiters once.
    pub prepare-commit :
        (later : ℕ) (ttl : Option ℕ)
        → let r = commit (prepare c now key g t k).0 later token ttl in
          (r.1 ≡ ok tt)
          × ((e : ControlEntry) × (find r.0 (address_for c key) ≡ some e)
              × Committed (subject c key) later t ttl e)
    prepare-commit later ttl =
        let (e, found, p, at) = prepare-Prepared in
        let out = commit-Outcome prepare-IsWellFormed later token ttl e found in
        let done = Prepared-commit (subject c key) later t ttl e token p in
        (out.0 ∙ done.0, ((settle e (commit_entry later token ttl e)).0, rw (← at) out.1, done.1))

-- A token is good for an entry that is prepared and at the token's generation.
unfoldable pub IsGood : CommitToken → ControlEntry → Type 0
IsGood token e = (e.generation ≡ token.generation) × (state_of e ≡ prepared)

pub commit_entry-cases :
    (e : ControlEntry) (now : ℕ) (token : CommitToken) (ttl : Option ℕ)
    → ((IsGood token e)
        × ((settle e (commit_entry now token ttl e)).1 ≡ ok tt)
        × (state_of (settle e (commit_entry now token ttl e)).0 ≡ ready))
      ⊎ ((IsGood token e → ⊥)
          × (settle e (commit_entry now token ttl e) ≡ (e, err stale_generation)))
unfolding commit_entry IsGood
commit_entry-cases e now token ttl = ground arith

module _ {c : Cachelito} (w : IsWellFormed c) (now : ℕ) (token : CommitToken) (ttl : Option ℕ) where
  -- A commit succeeds exactly where its token is good. Elsewhere it is refused as stale, and every
  -- entry is as it was.
  pub commit_iff :
      (e : ControlEntry)
      → find c token.address ≡ some e
      → (((commit c now token ttl).1 ≡ ok tt) ↔ IsGood token e)
        × ((IsGood token e → ⊥)
            → ((commit c now token ttl).1 ≡ err stale_generation)
              × ((b : KeyAddress) → find (commit c now token ttl).0 b ≡ find c b))
  commit_iff e found =
      let out = commit-Outcome w now token ttl e found in
      elim (commit_entry-cases e now token ttl) [
        | inl (good, success, state) ↦
            (((λ _. good), (λ _. out.0 ∙ success)), (λ bad. absurd (bad good)))
        | inr (bad, refused) ↦ (
          ((λ h. absurd (ground (arith, out.0, refused))), (λ good. absurd (bad good))),
          (λ _. (
            ground (arith, out.0, refused),
            commit_still w now token ttl e found (ground (arith, refused)),
          )),
        )
      ]

  -- After a commit that succeeds, every other commit at its address is refused until the entry is
  -- prepared again, and changes no entry.
  pub commit_twice :
      (later : ℕ) (other : CommitToken) (lifetime : Option ℕ)
      → (commit c now token ttl).1 ≡ ok tt
      → other.address ≡ token.address
      → let c' = (commit c now token ttl).0 in
        ((commit c' later other lifetime).1 ≡ err stale_generation)
        × ((b : KeyAddress) → find (commit c' later other lifetime).0 b ≡ find c' b)
  unfolding IsGood step
  commit_twice later other lifetime success same = elim (Option-cases (find c token.address)) [
    | inl missing ↦ absurd (ground (arith, commit_missing w now token ttl missing))
    | inr (e, found) ↦
        let out = commit-Outcome w now token ttl e found in
        let w' = step-IsWellFormed c w (commits now token ttl) in
        let e' = (settle e (commit_entry now token ttl e)).0 in
        let found' : find (commit c now token ttl).0 other.address ≡ some e' = rw same out.1 in
        let is_ready : state_of e' ≡ ready = ground (arith, commit_entry-cases e now token ttl) in
        let out' = commit-Outcome w' later other lifetime e' found' in
        elim (commit_entry-cases e' later other lifetime) [
          | inl (good, success', state) ↦ absurd (ground (arith, is_ready, good.1))
          | inr (bad, refused) ↦ (
            ground (arith, out'.0, refused),
            commit_still w' later other lifetime e' found' (ground (arith, refused)),
          )
        ]
  ]
