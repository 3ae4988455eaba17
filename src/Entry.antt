-- ===== src/Entry.antt =====
-- `src/entry.rs`: generations, entry states, commit intents and commit tokens.
use the_six.Base.{ℕ, Bool, true, false, not, Option, none, some, ltb, ◌==◌, if◌then◌else◌}
use the_six.Integrity.{KeyAddress}

-- The control-plane state of one entry.
pub data EntryState : Type 0 where
  absent ready stale in_flight prepared failed : EntryState

-- The derived `PartialEq`, which the control plane tests states with.
unfoldable pub state_code : EntryState → ℕ
state_code absent = 0
state_code ready = 1
state_code stale = 2
state_code in_flight = 3
state_code failed = 4
state_code prepared = 5

unfoldable pub is_readable : EntryState → Bool
is_readable ready = true
is_readable stale = true
is_readable _ = false

unfoldable pub is_claimable : EntryState → Bool
is_claimable absent = true
is_claimable failed = true
is_claimable stale = true
is_claimable _ = false

pub data IntentKind : Type 0 where
  write move : IntentKind

unfoldable pub kind_as_u8 : IntentKind → ℕ
kind_as_u8 write = 1
kind_as_u8 move = 2

unfoldable pub kind_from_u8 : ℕ → Option IntentKind
kind_from_u8 v = if v == 1 then some write else if v == 2 then some move else none

-- A `Generation` is its `u64`, and a `TierIdLite` its `u8`.
unfoldable pub generation_is_stale : ℕ → ℕ → Bool
generation_is_stale self current = ltb self current

pub record CommitIntent : Type 0 where
  pub kind : IntentKind
  pub target_tier : ℕ
  pub generation : ℕ
  pub started_nanos : ℕ

pub record CommitToken : Type 0 where
  pub address : KeyAddress
  pub generation : ℕ
  pub kind : IntentKind
  pub target_tier : ℕ

unfoldable pub expired_by : CommitToken → ℕ → Bool
expired_by token current = not (current == token.generation)
