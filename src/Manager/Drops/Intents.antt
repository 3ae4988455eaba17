-- ===== src/Manager/Drops/Intents.antt =====
-- The guard of an intent, `IntentGuard` of `src/manager.rs`: where the task that holds it is dropped, no
-- intent is left prepared at the address of its key.
use the_six.Base.{ℕ, ◌≡◌, ◌≢◌, refl, false, Option, none, some, List, arith, ◌∙◌, subst}
use the_six.Base.Result.{CacheError, Result, ok, cancelled}
use the_six.Tier.{TierId, as_usize}
use the_six.Tier.Interface.{CacheTier}
use the_six.Integrity.{KeyAddress}
use the_six.Entry.{prepared, CommitToken, IntentKind}
use the_six.Control.ControlEntry.{ControlEntry, state_of}
use the_six.Control.Handlers.{abort_entry}
use the_six.Control.Cachelito.{Cachelito, address_for, abort, prepare}
use the_six.Control.Cachelito.Lookup.{find, IsWellFormed}
use the_six.Control.History.{step, target, effect, apply, aborts, creates}
use the_six.Control.History.Step.{IsConsistent, step-IsConsistent, address_for-step, find-step}
use the_six.Control.TwoPhase.Commit.{prepare-Prepared}
use the_six.Manager.{Shared, Task, now_do, guarded, ◌>>=◌}
use the_six.Manager.Rungs.{on_plane, on_rung, on_index}
use the_six.Manager.Writes.{drop_guard}
use the_six.Manager.Maintains.{Stable, Maintains}
use the_six.Manager.Drops.{Clears, Clears-guarded, Clears-now_do_bind}
use the_six.Manager.Maintains.Primitives.{Preserves-prepare}
use mathlib.Core.Option
use the_six.Control.Shard.Probe.{same_address_iff}
use the_six.Manager.Rungs.Accesses.{plane-on_index}

-- No entry, or one that is not prepared.
abbrev pub IsFree : Option ControlEntry → Type 0
IsFree none = Unit
IsFree (some e) = state_of e ≢ prepared

abort_entry-IsFree :
    (e : ControlEntry) (error : CacheError) → state_of (abort_entry error false e) ≢ prepared
unfolding abort_entry
abort_entry-IsFree e error h = ground (arith, h)

abort-find :
    {c : Cachelito} (w : IsWellFormed c) (token : CommitToken) (error : CacheError)
    → find (abort c token error).0 token.address
      ≡ Option.map (abort_entry error false) (find c token.address)
unfolding abort step target apply effect creates
abort-find {c = c} w token error =
    find-step c w (aborts token error false) token.address
    ∙ rw ((same_address_iff token.address token.address).1 refl) refl

map-IsFree :
    (o : Option ControlEntry) (error : CacheError) → IsFree (Option.map (abort_entry error false) o)
map-IsFree none error = tt
map-IsFree (some e) error = abort_entry-IsFree e error

module _ (key : List ℕ) (a : KeyAddress) {S : Type 0} where
  -- The plane is consistent, and the key has the address.
  abbrev pub At : Shared S → Type 0
  At s = IsConsistent s.plane × (address_for s.plane key ≡ a)

  -- No intent is prepared at the address.
  abbrev pub Free : Shared S → Type 0
  Free s = IsFree (find s.plane a)

  At-on_index :
      {A : Type 0} (idx : ℕ) (access : S → ℕ → S × Result A) (s : Shared S)
      → At s
      → At (on_index idx access s).0
  At-on_index idx access s h = rw (plane-on_index idx access s) h

  At-on_rung :
      {A : Type 0} (tier : TierId) (access : S → ℕ → S × Result A) (s : Shared S)
      → At s
      → At (on_rung tier access s).0
  unfolding on_rung
  At-on_rung tier access s h = At-on_index (as_usize tier) access s h

  pub At-Stable : {V : Type 0} (T : CacheTier V S) → Stable T At
  At-Stable T = record {
    called = λ s call t h.
        (step-IsConsistent s.plane call t h.0, address_for-step s.plane call key ∙ h.1);
    got = λ s tier k h. At-on_rung tier _ s h;
    held = λ s tier k h. At-on_rung tier _ s h;
    stored = λ s tier k value ttl c h. At-on_rung tier _ s h;
    removed = λ s idx k other h. At-on_index idx _ s h;
    nominated = λ s tier c h. At-on_rung tier _ s h;
    evicted = λ s tier address c h. At-on_rung tier _ s h;
    noted = λ s log h. h;
    rated = λ s registry h. h;
  }

  drop_guard-Free :
      (token : CommitToken) → token.address ≡ a → (s : Shared S) → At s → Free (drop_guard token s)
  unfolding drop_guard on_plane
  drop_guard-Free token same s h =
      subst (λ x. IsFree (find (abort s.plane token cancelled).0 x)) same
        (rw (abort-find h.0.shaped token cancelled)
          (map-IsFree (find s.plane token.address) cancelled))

  -- The address of a token is the one of its key.
  prepared_address :
      (g : Option ℕ) (rung : TierId) (kind : IntentKind) (s : Shared S) (token : CommitToken)
      → At s
      → (on_plane (λ now plane. prepare plane now key g rung kind) s).1 ≡ ok token
      → token.address ≡ a
  unfolding on_plane
  prepared_address g rung kind s token h issued =
      let (e, found, p, at) = prepare-Prepared h.0 s.now key g rung kind token issued in at ∙ h.1

  module _ {V : Type 0} (T : CacheTier V S) where
    -- A task that prepares the key goes on with a token of the key's address.
    pub Clears-prepare :
        {A : Type 0} (g : Option ℕ) (rung : TierId) (kind : IntentKind)
        (rest : CommitToken → Task S A)
        → ((token : CommitToken) → token.address ≡ a → Clears At Free (rest token))
        → Clears At Free
            (now_do (on_plane (λ now plane. prepare plane now key g rung kind)) >>= rest)
    Clears-prepare g rung kind rest cr =
        Clears-now_do_bind (on_plane (λ now plane. prepare plane now key g rung kind)) rest
          (Preserves-prepare (At-Stable T) key g rung kind)
          (λ s h token issued. cr token (prepared_address g rung kind s token h issued))

  pub Clears-drop_guard :
      {A : Type 0} (token : CommitToken) (body : Task S A)
      → token.address ≡ a
      → Maintains At body
      → Clears At Free (guarded (drop_guard token) body)
  Clears-drop_guard token body same =
      Clears-guarded (drop_guard token) body (drop_guard-Free token same)
