-- ===== src/Recovery/Unblocked.antt =====
-- What recovery achieves: it is a history of calls, it counts no intent twice, and it leaves no entry
-- that it was told of prepared and owned.
use the_six.Base.{◌≡◌, true, Option, some, List, [], ◌∷◌, is_some}
use mathlib.Core.Option
use the_six.Base.Result.{uncommitted_intent}
use the_six.Entry.{IntentKind, write, move, CommitIntent, prepared}
use the_six.Integrity.{KeyAddress}
use the_six.Control.ControlEntry.{ControlEntry, state_of, intent_of}
use the_six.Control.Cachelito.{Cachelito}
use the_six.Control.Cachelito.Lookup.{find}
use the_six.Control.History.{Call, aborts_intent, releases_claim}

-- The call that recovers an intent of a kind.
unfoldable pub recovery_call : IntentKind → KeyAddress → Call
recovery_call write a = aborts_intent a uncommitted_intent
recovery_call move a = releases_claim a

abbrev pub recovery_calls : List (KeyAddress × CommitIntent) → List Call
recovery_calls [] = []
recovery_calls ((a, intent) ∷ intents) = recovery_call intent.kind a ∷ recovery_calls intents

-- An entry that is prepared and owned declines every population.
abbrev pub IsBlocked : ControlEntry → Type 0
IsBlocked e = (state_of e ≡ prepared) × (e.population_owner ≡ true)

-- A recovery call can resolve an entry where a blocked one has an intent.
abbrev pub IsResolvable : ControlEntry → Type 0
IsResolvable e = IsBlocked e → is_some (intent_of e) ≡ true

abbrev pub AtAddress : (ControlEntry → Type 0) → Cachelito → KeyAddress → Type 0
AtAddress P c a = (e : ControlEntry) → find c a ≡ some e → P e

abbrev pub IsFree : ControlEntry → Type 0
IsFree e = IsBlocked e → ⊥

-- A property at every address of a list of intents.
abbrev pub AtAll : (ControlEntry → Type 0) → Cachelito → List (KeyAddress × CommitIntent) → Type 0
AtAll P c [] = Unit
AtAll P c ((a, intent) ∷ intents) = AtAddress P c a × AtAll P c intents
