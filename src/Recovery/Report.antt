-- ===== src/Recovery/Report.antt =====
-- The counts of `RecoveryReport` against the intents that a pass was given.
use the_six.Base.{
  ℕ, ◌+◌, ◌≤◌, ◌≡◌, refl, ◌∙◌, Bool, false, List, [], ◌∷◌, arith, inl, inr, Option-cases,
}
use the_six.Base.Result.{CacheError, ok, uncommitted_intent}
use the_six.Entry.{IntentKind, write, move, CommitIntent}
use the_six.Integrity.{KeyAddress}
use the_six.Control.Handlers.{abort_intent_entry, release_claim_entry}
use the_six.Control.Shard.{find_entry}
use the_six.Control.Cachelito.{
  Cachelito, shard_of, at_entry, abort_intent_by_address, release_population_claim,
}
use the_six.Recovery.{RecoveryReport, recover_intent, recover_intents, count_abort, count_release}

abbrev pub one_write : IntentKind → ℕ
one_write write = 1
one_write move = 0

abbrev pub one_move : IntentKind → ℕ
one_move write = 0
one_move move = 1

-- How many of the intents are of a kind.
abbrev pub writes : List (KeyAddress × CommitIntent) → ℕ
writes [] = 0
writes ((a, intent) ∷ intents) = one_write intent.kind + writes intents

abbrev pub moves : List (KeyAddress × CommitIntent) → ℕ
moves [] = 0
moves ((a, intent) ∷ intents) = one_move intent.kind + moves intents

abort_intent-ok :
    (c : Cachelito) (a : KeyAddress) (x : CacheError)
    → (b : Bool) × ((abort_intent_by_address c a x).1 ≡ ok b)
unfolding abort_intent_by_address at_entry
abort_intent-ok c a x = elim (Option-cases (find_entry (shard_of c a) a)) [
  | inl missing ↦ (false, rw (missing, at_entry) refl)
  | inr ((i, e), found) ↦ ((abort_intent_entry x e).1, rw (found, at_entry) refl)
]

release_claim-ok :
    (c : Cachelito) (a : KeyAddress) → (b : Bool) × ((release_population_claim c a).1 ≡ ok b)
unfolding release_population_claim at_entry
release_claim-ok c a = elim (Option-cases (find_entry (shard_of c a) a)) [
  | inl missing ↦ (false, rw (missing, at_entry) refl)
  | inr ((i, e), found) ↦ ((release_claim_entry e).1, rw (found, at_entry) refl)
]

-- What the recovery of some writes and moves may add to a report.
pub record Accounts (before after : RecoveryReport) (writes moves : ℕ) : Type 0 where
  pub recovered : after.recovered ≤ before.recovered + writes
  pub failed : after.failed ≡ before.failed
  pub needs : after.needs_reconciliation ≡ before.needs_reconciliation + moves
  pub released : after.released_for_reconciliation ≤ before.released_for_reconciliation + moves

count_abort-Accounts :
    (b : Bool) (report : RecoveryReport) → Accounts report (count_abort (ok b) report) 1 0
unfolding count_abort
count_abort-Accounts b report = ground arith

count_release-Accounts :
    (b : Bool) (report : RecoveryReport)
    → Accounts report
        (count_release
          (ok b)
          (record report { needs_reconciliation = report.needs_reconciliation + 1 }))
        0
        1
unfolding count_release
count_release-Accounts b report = ground arith

recover_intent-Accounts :
    (k : IntentKind) (a : KeyAddress) (c : Cachelito) (report : RecoveryReport)
    → Accounts report (recover_intent k a c report).1 (one_write k) (one_move k)
unfolding recover_intent
recover_intent-Accounts write a c report =
    let (b, result) = abort_intent-ok c a uncommitted_intent in
    rw result (count_abort-Accounts b report)
recover_intent-Accounts move a c report =
    let (b, result) = release_claim-ok c a in rw result (count_release-Accounts b report)

-- The report of a pass: it counts every move as one to reconcile, no intent as failed, and at most
-- the writes as recovered and the moves as released.
pub recover_intents-Accounts :
    (intents : List (KeyAddress × CommitIntent)) (c : Cachelito) (report : RecoveryReport)
    → Accounts report (recover_intents intents c report).1 (writes intents) (moves intents)
unfolding recover_intents
recover_intents-Accounts [] c report = ground arith
recover_intents-Accounts ((a, intent) ∷ intents) c report =
    let r = recover_intent intent.kind a c report in
    let first = recover_intent-Accounts intent.kind a c report in
    let rest = recover_intents-Accounts intents r.0 r.1 in
    record {
      recovered = omega (arith, first.recovered, rest.recovered);
      failed = rest.failed ∙ first.failed;
      needs = omega (arith, first.needs, rest.needs);
      released = omega (arith, first.released, rest.released);
    }
