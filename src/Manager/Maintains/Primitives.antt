-- ===== src/Manager/Maintains/Primitives.antt =====
-- What awaits nothing else: one rule for each call of the plane, each access to a rung, and each
-- record, to keep what is stable.
use the_six.Base.{ℕ, ◌≡◌, ◌≢◌, refl, true, false, Option, List, arith}
use the_six.Base.Result.{CacheError, Result, ok, cancelled}
use the_six.Tier.{TierId, is_cache_rung, as_usize, authority_rung_index}
use the_six.Tier.Interface.{CacheTier}
use the_six.Entry.{EntryState, IntentKind, CommitToken}
use the_six.Integrity.{KeyAddress}
use the_six.Telemetry.{Operation, Outcome, OperationRecord}
use the_six.Control.History.{
  Call, step, acquires, publishes, prepares, commits, aborts, fails, releases, invalidates,
  puts_state, reserves, IsWellTyped,
}
use the_six.Control.Cachelito.{
  Cachelito, acquire, publish, prepare, commit, abort, fail_with_error, release, invalidate,
  put_state, reserve_eviction,
}
use the_six.Manager.{Shared, now_do, bounded, unbounded}
use the_six.Manager.Rungs.{
  on_rung, on_plane, emit, record_outcome, observed_control_only, observed_read, observed_write,
}
use the_six.Manager.Reads.{observe, wait_for_population, refuse, mark_stale}
use the_six.Manager.Writes.{remove_from, drop_guard, abort_plainly}
use the_six.Manager.Populate.{drop_claim, claim}
use the_six.Manager.Maintains.{
  Stable, Preserves, Maintains, Maintains-now_do, Maintains-bounded, Maintains-unbounded,
  Maintains-attempt, maintains_rules,
}

pub as_usize-ne : (tier : TierId) → is_cache_rung tier ≡ true → as_usize tier ≢ authority_rung_index
unfolding is_cache_rung
as_usize-ne tier c e = ground arith

module _ {S : Type 0} {P : Shared S → Type 0} where
  pub Maintains-pause : Maintains P (bounded {S = S} (λ s. (s, ok tt)))
  Maintains-pause = Maintains-bounded (λ s. (s, ok tt)) (λ s h. h)

  pub Maintains-sleep : Maintains P (unbounded {S = S} (λ s. (s, ok tt)))
  Maintains-sleep = Maintains-unbounded (λ s. (s, ok tt)) (λ s h. h)

  pub Maintains-fetched : {A : Type 0} (r : Result A) → Maintains P (bounded {S = S} (λ s. (s, r)))
  Maintains-fetched r = Maintains-bounded (λ s. (s, r)) (λ s h. h)

module _ {V S : Type 0} {T : CacheTier V S} {P : Shared S → Type 0} (st : Stable T P) where
  -- A call of the plane is one of those of its histories.
  pub Preserves-on_plane :
      {A : Type 0} (f : ℕ → Cachelito → Cachelito × Result A) (call : ℕ → Call)
      → ((now : ℕ) → IsWellTyped (call now))
      → ((now : ℕ) (c : Cachelito) → (f now c).0 ≡ step c (call now))
      → Preserves P (λ s. (on_plane f s).0)
  unfolding on_plane
  Preserves-on_plane f call typed same s h =
      rw (same s.now s.plane) (st.called s (call s.now) (typed s.now) h)

  Maintains-on_plane :
      {A : Type 0} (f : ℕ → Cachelito → Cachelito × Result A) (call : ℕ → Call)
      → ((now : ℕ) → IsWellTyped (call now))
      → ((now : ℕ) (c : Cachelito) → (f now c).0 ≡ step c (call now))
      → Maintains P (now_do (on_plane f))
  Maintains-on_plane f call typed same =
      Maintains-now_do (on_plane f) (Preserves-on_plane f call typed same)

  pub Preserves-prepare :
      (key : List ℕ) (g : Option ℕ) (rung : TierId) (kind : IntentKind)
      → Preserves P (λ s. (on_plane (λ now plane. prepare plane now key g rung kind) s).0)
  unfolding step IsWellTyped
  Preserves-prepare key g rung kind =
      Preserves-on_plane (λ now plane. prepare plane now key g rung kind)
        (λ now. prepares now key g rung kind) (λ now. tt) (λ now c. refl)

  pub Maintains-prepare :
      (key : List ℕ) (g : Option ℕ) (rung : TierId) (kind : IntentKind)
      → Maintains P (now_do (on_plane (λ now plane. prepare plane now key g rung kind)))
  Maintains-prepare key g rung kind =
      Maintains-now_do (on_plane (λ now plane. prepare plane now key g rung kind))
        (Preserves-prepare key g rung kind)

  pub Maintains-commit :
      (token : CommitToken) (ttl : Option ℕ)
      → Maintains P (now_do (on_plane (λ now plane. commit plane now token ttl)))
  unfolding step IsWellTyped
  Maintains-commit token ttl =
      Maintains-on_plane (λ now plane. commit plane now token ttl) (λ now. commits now token ttl)
        (λ now. tt) (λ now c. refl)

  pub Maintains-publish :
      (key : List ℕ) (g : ℕ) (tier : TierId) (ttl : Option ℕ)
      → Maintains P (now_do (on_plane (λ now plane. publish plane now key g tier ttl)))
  unfolding step IsWellTyped
  Maintains-publish key g tier ttl =
      Maintains-on_plane (λ now plane. publish plane now key g tier ttl)
        (λ now. publishes now key g tier ttl) (λ now. tt) (λ now c. refl)

  pub Maintains-claim : (key : List ℕ) (tier : TierId) → Maintains P (claim {S = S} key tier)
  unfolding claim step IsWellTyped
  Maintains-claim key tier =
      Maintains-on_plane (λ now plane. acquire plane now key tier) (λ now. acquires now key tier)
        (λ now. tt) (λ now c. refl)

  pub Maintains-invalidate :
      (key : List ℕ) → Maintains P (now_do (on_plane (λ _ plane. invalidate plane key)))
  unfolding step IsWellTyped
  Maintains-invalidate key =
      Maintains-on_plane (λ _ plane. invalidate plane key) (λ _. invalidates key) (λ now. tt)
        (λ now c. refl)

  pub Maintains-release :
      (key : List ℕ) → Maintains P (now_do (on_plane (λ _ plane. release plane key)))
  unfolding step IsWellTyped
  Maintains-release key =
      Maintains-on_plane (λ _ plane. release plane key) (λ _. releases key) (λ now. tt)
        (λ now c. refl)

  pub Maintains-reserve :
      (address : KeyAddress)
      → Maintains P (now_do (on_plane (λ _ plane. reserve_eviction plane address)))
  unfolding step IsWellTyped
  Maintains-reserve address =
      Maintains-on_plane (λ _ plane. reserve_eviction plane address) (λ _. reserves address)
        (λ now. tt) (λ now c. refl)

  pub Maintains-fail :
      (key : List ℕ) (e : CacheError)
      → Maintains P (now_do (on_plane (λ _ plane. fail_with_error plane key e)))
  unfolding step IsWellTyped
  Maintains-fail key e =
      Maintains-on_plane (λ _ plane. fail_with_error plane key e) (λ _. fails key e) (λ now. tt)
        (λ now c. refl)

  pub Maintains-mark_stale : (key : List ℕ) → Maintains P (mark_stale {S = S} key)
  unfolding mark_stale step IsWellTyped
  Maintains-mark_stale key = Maintains-attempt _ (
      Maintains-on_plane (λ _ plane. put_state plane key EntryState.stale)
        (λ _. puts_state key EntryState.stale) (λ now. tt) (λ now c. refl))

  pub Maintains-abort_plainly :
      (token : CommitToken) (e : CacheError) → Maintains P (abort_plainly {S = S} token e)
  unfolding abort_plainly step IsWellTyped abort
  Maintains-abort_plainly token e = Maintains-attempt _ (
      Maintains-on_plane (λ _ plane. abort plane token e) (λ _. aborts token e false) (λ now. tt)
        (λ now c. refl))

  -- The two guards, where they are dropped.
  pub Preserves-drop_guard : (token : CommitToken) → Preserves P (drop_guard {S = S} token)
  unfolding drop_guard step IsWellTyped abort
  Preserves-drop_guard token =
      Preserves-on_plane (λ _ plane. abort plane token cancelled)
        (λ _. aborts token cancelled false) (λ now. tt) (λ now c. refl)

  pub Preserves-drop_claim : (key : List ℕ) → Preserves P (drop_claim {S = S} key)
  unfolding drop_claim step IsWellTyped
  Preserves-drop_claim key =
      Preserves-on_plane (λ _ plane. fail_with_error plane key cancelled) (λ _. fails key cancelled)
        (λ now. tt) (λ now c. refl)

  pub Maintains-drop_guard :
      (token : CommitToken) → Maintains P (now_do {S = S} (λ s. (drop_guard token s, ok tt)))
  Maintains-drop_guard token =
      Maintains-now_do (λ s. (drop_guard token s, ok tt)) (Preserves-drop_guard token)

  pub Maintains-get_at :
      (tier : TierId) (key : List ℕ)
      → Maintains P (bounded (on_rung tier (λ rung now. T.get rung now key)))
  Maintains-get_at tier key =
      Maintains-bounded (on_rung tier (λ rung now. T.get rung now key)) (λ s. st.got s tier key)

  pub Maintains-contains_at :
      (tier : TierId) (key : List ℕ)
      → Maintains P (bounded (on_rung tier (λ rung now. T.contains rung now key)))
  Maintains-contains_at tier key =
      Maintains-bounded (on_rung tier (λ rung now. T.contains rung now key))
        (λ s. st.held s tier key)

  pub Maintains-set_at :
      (tier : TierId) (key : List ℕ) (value : V) (ttl : Option ℕ)
      → is_cache_rung tier ≡ true
      → Maintains P (bounded (on_rung tier (λ rung now. T.set rung now key value ttl)))
  Maintains-set_at tier key value ttl c =
      Maintains-bounded (on_rung tier (λ rung now. T.set rung now key value ttl))
        (λ s. st.stored s tier key value ttl c)

  Preserves-remove :
      (tier : TierId) (key : List ℕ)
      → is_cache_rung tier ≡ true
      → Preserves P (λ s. (remove_from T tier key s).0)
  unfolding remove_from on_rung
  Preserves-remove tier key c s = st.removed s (as_usize tier) key (as_usize-ne tier c)

  pub Maintains-remove_at :
      (tier : TierId) (key : List ℕ)
      → is_cache_rung tier ≡ true
      → Maintains P (bounded (remove_from T tier key))
  Maintains-remove_at tier key c =
      Maintains-bounded (remove_from T tier key) (Preserves-remove tier key c)

  pub Maintains-remove_unbounded :
      (tier : TierId) (key : List ℕ)
      → is_cache_rung tier ≡ true
      → Maintains P (unbounded (remove_from T tier key))
  Maintains-remove_unbounded tier key c =
      Maintains-unbounded (remove_from T tier key) (Preserves-remove tier key c)

  pub Maintains-nominate :
      (tier : TierId)
      → is_cache_rung tier ≡ true
      → Maintains P (
          now_do (
            on_rung tier (λ state now.
              ((T.eviction_candidate state now).0, ok ((T.eviction_candidate state now).1)))))
  unfolding now_do
  Maintains-nominate tier c = record { at = λ w h fair. (st.nominated w.shared tier c h, fair) }

  pub Maintains-evict :
      (tier : TierId) (address : KeyAddress)
      → is_cache_rung tier ≡ true
      → Maintains P (now_do (on_rung tier (λ state _. T.remove_if_address state address)))
  unfolding now_do
  Maintains-evict tier address c = record {
    at = λ w h fair. (st.evicted w.shared tier address c h, fair);
  }

  pub Maintains-emit : (make : Shared S → OperationRecord) → Maintains P (emit make)
  unfolding emit
  Maintains-emit make = record { at = λ w h fair. (st.noted w.shared _ h, fair) }

  pub Maintains-record_outcome :
      {A : Type 0} (tier : TierId) (result : Result A) → Maintains P (record_outcome tier result)
  unfolding record_outcome
  Maintains-record_outcome tier result = record { at = λ w h fair. (st.rated w.shared _ h, fair) }

  pub Maintains-observed_control_only :
      (op : Operation) (key : List ℕ) (tier : TierId) (started : ℕ) (outcome : Outcome)
      → Maintains P (observed_control_only op key tier started outcome)
  unfolding observed_control_only
  Maintains-observed_control_only op key tier started outcome = Maintains-emit _

  pub Maintains-observed_read :
      (op : Operation) (key : List ℕ) (tier : TierId) → Maintains P (observed_read T op key tier)
  unfolding observed_read
  Maintains-observed_read op key tier = search (maintains_rules, Maintains-get_at, Maintains-emit)

  pub Maintains-observed_write :
      (op : Operation) (key : List ℕ) (tier : TierId) (value : V) (ttl : Option ℕ)
      → is_cache_rung tier ≡ true
      → Maintains P (observed_write T op key tier value ttl)
  unfolding observed_write
  Maintains-observed_write op key tier value ttl c =
      search (maintains_rules, Maintains-set_at, Maintains-emit)

  pub Maintains-observe : (key : List ℕ) → Maintains P (observe {S = S} key)
  unfolding observe
  Maintains-observe key = search maintains_rules

  pub Maintains-wait : (key : List ℕ) → Maintains P (wait_for_population {S = S} key)
  unfolding wait_for_population
  Maintains-wait key = search (maintains_rules, Maintains-observe, Maintains-pause)

  pub Maintains-refuse :
      {A : Type 0} (op : Operation) (key : List ℕ) (tier : TierId) (started : ℕ) (e : CacheError)
      → Maintains P (refuse {A = A} op key tier started e)
  unfolding refuse
  Maintains-refuse op key tier started e = search (maintains_rules, Maintains-observed_control_only)
