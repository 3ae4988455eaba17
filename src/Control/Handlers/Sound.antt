-- ===== src/Control/Handlers/Sound.antt =====
-- What holds of every stored entry: its bytes decode, and its numbers fit their widths. Every handler
-- keeps it, and keeps the address.
use the_six.Base.{ℕ, ◌≤◌, ◌<◌, ◌≡◌, ◌⊎◌, Bool, true, Option, arith, u64_mod}
use the_six.Base.Result.{CacheError, ok}
use the_six.Tier.{TierId}
use the_six.Entry.{EntryState, IntentKind, CommitToken}
use the_six.Integrity.{KeyAddress}
use the_six.Control.ControlEntry.{
  ControlEntry, new_entry, set_state, set_generation, set_tier, notify, increment_generation,
}
use the_six.Control.Handlers.{
  acquire_entry, publish_entry, fail_entry, invalidate_entry, release_claim_entry,
  reserve_eviction_entry, prepare_entry, commit_entry, abort_entry, abort_intent_entry, sweep_entry,
}

pub record IsSound (e : ControlEntry) : Type 0 where
  pub state : e.state ≤ 5
  pub generation : e.generation < u64_mod
  pub tier : e.tier ≤ 6
  pub ttl : e.expiration_nanos < u64_mod
  pub populated : e.population_timestamp < u64_mod
  pub previous : e.intent_prev_state ≤ 5
  pub kind : e.intent_present ≡ true → (e.intent_kind ≡ 1) ⊎ (e.intent_kind ≡ 2)

pub new_entry-IsSound : (a : KeyAddress) → IsSound (new_entry a)
unfolding new_entry
new_entry-IsSound a = ground arith

module _ (e : ControlEntry) (v : IsSound e) where
  pub set_state-IsSound : (s : EntryState) → IsSound (set_state s e)
  unfolding set_state
  set_state-IsSound s = ground arith

  pub set_generation-IsSound : (g : ℕ) → g < u64_mod → IsSound (set_generation g e)
  unfolding set_generation
  set_generation-IsSound g h = ground arith

  pub set_tier-IsSound : (t : TierId) → IsSound (set_tier t e)
  unfolding set_tier
  set_tier-IsSound t = ground arith

  pub notify-IsSound : IsSound (notify e)
  unfolding notify
  notify-IsSound = ground arith

  pub increment_generation-IsSound : IsSound (increment_generation e)
  unfolding increment_generation
  increment_generation-IsSound = ground arith

  pub acquire_entry-IsSound : (now : ℕ) (t : TierId) → IsSound (acquire_entry now t e).0
  unfolding acquire_entry
  acquire_entry-IsSound now t = ground arith

  pub publish_entry-IsSound :
      (now g : ℕ) (t : TierId) (ttl : Option ℕ) (e' : ControlEntry)
      → publish_entry now g t ttl e ≡ ok e'
      → IsSound e'
  unfolding publish_entry
  publish_entry-IsSound now g t ttl e' h = ground arith

  pub fail_entry-IsSound : (x : CacheError) → IsSound (fail_entry x e)
  unfolding fail_entry
  fail_entry-IsSound x = ground arith

  pub invalidate_entry-IsSound : IsSound (invalidate_entry e)
  unfolding invalidate_entry
  invalidate_entry-IsSound = ground arith

  pub release_claim_entry-IsSound : IsSound (release_claim_entry e).0
  unfolding release_claim_entry
  release_claim_entry-IsSound = ground arith

  pub reserve_eviction_entry-IsSound : IsSound (reserve_eviction_entry e).0
  unfolding reserve_eviction_entry
  reserve_eviction_entry-IsSound = ground arith

  pub prepare_entry-IsSound :
      (now : ℕ) (g : Option ℕ) (t : TierId) (k : IntentKind) (r : ControlEntry × CommitToken)
      → prepare_entry now g t k e ≡ ok r
      → IsSound r.0
  unfolding prepare_entry
  prepare_entry-IsSound now g t k r h = ground arith

  pub commit_entry-IsSound :
      (now : ℕ) (token : CommitToken) (ttl : Option ℕ) (e' : ControlEntry)
      → commit_entry now token ttl e ≡ ok e'
      → IsSound e'
  unfolding commit_entry
  commit_entry-IsSound now token ttl e' h = ground arith

  pub abort_entry-IsSound : (x : CacheError) (clean : Bool) → IsSound (abort_entry x clean e)
  unfolding abort_entry
  abort_entry-IsSound x clean = ground arith

  pub abort_intent_entry-IsSound : (x : CacheError) → IsSound (abort_intent_entry x e).0
  unfolding abort_intent_entry
  abort_intent_entry-IsSound x = ground arith

  pub sweep_entry-IsSound : (now : ℕ) → IsSound (sweep_entry now e).0
  unfolding sweep_entry
  sweep_entry-IsSound now = ground arith
