-- ===== src/Recovery.antt =====
-- Recovery of outstanding intents: `src/continuity.rs`, `resolve_intent` of
-- `src/control/cachelito.rs`, and `recover_older_than` of `src/manager.rs`.
pub mod Unblocked
pub mod Report
use the_six.Base.{ℕ, ◌+◌, ◌%◌, Bool, true, false, List, [], ◌∷◌, none, u64_mod}
use the_six.Base.Result.{Result, ok, err, uncommitted_intent, configuration_error}
use the_six.Entry.{IntentKind, write, move, CommitIntent, CommitToken}
use the_six.Integrity.{KeyAddress}
use the_six.Control.Cachelito.{
  Cachelito, address_for, commit, abort, abort_intent_by_address, release_population_claim,
}
use the_six.Control.Maintenance.{stale_intents}

pub data RecoveryDirection : Type 0 where
  abort_it complete_forward external_reconciliation : RecoveryDirection

-- `RecoveryDirection::for_kind`.
unfoldable pub for_kind : IntentKind → RecoveryDirection
for_kind write = abort_it
for_kind move = external_reconciliation

unfoldable pub is_executable_here : RecoveryDirection → Bool
is_executable_here abort_it = true
is_executable_here _ = false

pub data RecoveryOutcome : Type 0 where
  aborted completed failed : IntentKind → RecoveryOutcome

-- The token that `resolve_intent` makes of an intent.
unfoldable pub token_of : Cachelito → List ℕ → CommitIntent → CommitToken
unfolding address_for
token_of c key intent = record {
  address = address_for c key;
  generation = intent.generation;
  kind = intent.kind;
  target_tier = intent.target_tier;
}

-- `self.call(..)?; Ok(outcome)`.
abbrev with_outcome :
    Cachelito × Result (Unit {0}) → RecoveryOutcome → Cachelito × Result RecoveryOutcome
with_outcome (c, ok _) outcome = (c, ok outcome)
with_outcome (c, err e) outcome = (c, err e)

unfoldable pub resolve_intent :
    Cachelito → ℕ → List ℕ → CommitIntent → RecoveryDirection → Cachelito × Result RecoveryOutcome
unfolding token_of abort commit
resolve_intent c now key intent abort_it =
    with_outcome (abort c (token_of c key intent) uncommitted_intent) (aborted intent.kind)
resolve_intent c now key intent complete_forward =
    with_outcome (commit c now (token_of c key intent) none) (completed intent.kind)
resolve_intent c now key intent external_reconciliation = (c, err configuration_error)

pub record RecoveryReport : Type 0 where
  pub recovered : ℕ
  pub failed : ℕ
  pub needs_reconciliation : ℕ
  pub released_for_reconciliation : ℕ

-- `RecoveryReport::default()`.
unfoldable pub no_report : RecoveryReport
no_report = record {
  recovered = 0;
  failed = 0;
  needs_reconciliation = 0;
  released_for_reconciliation = 0;
}

-- The arms on what `abort_intent_by_address` and `release_population_claim` return.
unfoldable pub count_abort : Result Bool → RecoveryReport → RecoveryReport
count_abort (ok true) report = record report { recovered = report.recovered + 1 }
count_abort (ok false) report = report
count_abort (err _) report = record report { failed = report.failed + 1 }

unfoldable pub count_release : Result Bool → RecoveryReport → RecoveryReport
count_release (ok true) report = record report {
  released_for_reconciliation = report.released_for_reconciliation + 1;
}
count_release (ok false) report = report
count_release (err _) report = record report { failed = report.failed + 1 }

-- The body of the loop of `recover_older_than`, by the kind of the intent.
unfoldable pub recover_intent :
    IntentKind → KeyAddress → Cachelito → RecoveryReport → Cachelito × RecoveryReport
unfolding abort_intent_by_address release_population_claim count_abort count_release
recover_intent write address c report =
    let r = abort_intent_by_address c address uncommitted_intent in (r.0, count_abort r.1 report)
recover_intent move address c report =
    let r = release_population_claim c address in
    (
      r.0,
      count_release r.1 (record report { needs_reconciliation = report.needs_reconciliation + 1 }),
    )

unfoldable pub recover_intents :
    List (KeyAddress × CommitIntent) → Cachelito → RecoveryReport → Cachelito × RecoveryReport
unfolding recover_intent
recover_intents [] c report = (c, report)
recover_intents ((address, intent) ∷ intents) c report =
    let r = recover_intent intent.kind address c report in recover_intents intents r.0 r.1

-- `age.as_nanos() as u64` keeps the low 64 bits.
unfoldable pub recover_older_than : Cachelito → ℕ → ℕ → Cachelito × RecoveryReport
unfolding recover_intents stale_intents no_report
recover_older_than c now age = recover_intents (stale_intents now (age % u64_mod) c) c no_report
