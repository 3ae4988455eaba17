-- ===== src/Control/Handlers/Address.antt =====
-- No handler changes the address of its entry.
use the_six.Base.{ℕ, ◌≡◌, Bool, Option, arith}
use the_six.Base.Result.{CacheError, ok}
use the_six.Tier.{TierId}
use the_six.Entry.{IntentKind, CommitToken}
use the_six.Control.ControlEntry.{ControlEntry}
use the_six.Control.Handlers.{
  acquire_entry, publish_entry, fail_entry, invalidate_entry, release_claim_entry,
  reserve_eviction_entry, prepare_entry, commit_entry, abort_entry, abort_intent_entry, sweep_entry,
}

module _ (e : ControlEntry) where
  pub address-acquire : (now : ℕ) (t : TierId) → (acquire_entry now t e).0.address ≡ e.address
  unfolding acquire_entry
  address-acquire now t = ground arith

  pub address-publish :
      (now g : ℕ) (t : TierId) (ttl : Option ℕ) (e' : ControlEntry)
      → publish_entry now g t ttl e ≡ ok e'
      → e'.address ≡ e.address
  unfolding publish_entry
  address-publish now g t ttl e' h = ground arith

  pub address-fail : (x : CacheError) → (fail_entry x e).address ≡ e.address
  unfolding fail_entry
  address-fail x = ground arith

  pub address-invalidate : (invalidate_entry e).address ≡ e.address
  unfolding invalidate_entry
  address-invalidate = ground arith

  pub address-release_claim : (release_claim_entry e).0.address ≡ e.address
  unfolding release_claim_entry
  address-release_claim = ground arith

  pub address-reserve_eviction : (reserve_eviction_entry e).0.address ≡ e.address
  unfolding reserve_eviction_entry
  address-reserve_eviction = ground arith

  pub address-prepare :
      (now : ℕ) (g : Option ℕ) (t : TierId) (k : IntentKind) (r : ControlEntry × CommitToken)
      → prepare_entry now g t k e ≡ ok r
      → r.0.address ≡ e.address
  unfolding prepare_entry
  address-prepare now g t k r h = ground arith

  pub address-commit :
      (now : ℕ) (token : CommitToken) (ttl : Option ℕ) (e' : ControlEntry)
      → commit_entry now token ttl e ≡ ok e'
      → e'.address ≡ e.address
  unfolding commit_entry
  address-commit now token ttl e' h = ground arith

  pub address-abort : (x : CacheError) (clean : Bool) → (abort_entry x clean e).address ≡ e.address
  unfolding abort_entry
  address-abort x clean = ground arith

  pub address-abort_intent : (x : CacheError) → (abort_intent_entry x e).0.address ≡ e.address
  unfolding abort_intent_entry
  address-abort_intent x = ground arith

  pub address-sweep : (now : ℕ) → (sweep_entry now e).0.address ≡ e.address
  unfolding sweep_entry
  address-sweep now = ground arith
