-- ===== src/Manager/Maintains.antt =====
-- Invariants of the manager's tasks: what every plane call, every access to a rung and every other
-- task keeps, a whole operation keeps, wherever it is dropped. One rule for each way to build a task.
pub mod Primitives
pub mod Reads
pub mod Writes
pub mod Moves
pub mod Populate
use the_six.Base.{
  ℕ, ◌≡◌, ◌≢◌, refl, Bool, true, false, Option, none, some, List, [], ◌∷◌, if◌then◌else◌,
}
use the_six.Base.Sorting.{All}
use the_six.Base.Result.{CacheError, Result, ok, err}
use the_six.Tier.{TierId, is_cache_rung, authority_rung_index}
use the_six.Integrity.{KeyAddress}
use the_six.Tier.Interface.{CacheTier}
use the_six.Tier.Registry.{TierRegistry}
use the_six.Telemetry.{OperationRecord}
use the_six.Control.History.{Call, step, IsWellTyped}
use the_six.Manager.{
  Shared, Fate, completes, expires, leaves, Await, World, Exit, returns, raises, drops, Task, pure,
  raise, lift, continue_with, ◌>>=◌, ◌>>◌, attempt, guarded, gets, now_do, settled, unbounded_fate,
  bounded, unbounded, caught, released, awaited, option_case, result_case,
}
use the_six.Manager.Rungs.{on_index, on_rung}

-- What a property of the shared state has to be for the tasks to keep it: plane calls keep it, reads of
-- any rung, writes of the rungs other than the authority's, and changes of the registry and the log.
pub record Stable {V S : Type 0} (T : CacheTier V S) (P : Shared S → Type 0) : Type 0 where
  pub called :
      (s : Shared S) (call : Call)
      → IsWellTyped call
      → P s
      → P (record s { plane = step s.plane call })
  pub got :
      (s : Shared S) (tier : TierId) (key : List ℕ)
      → P s
      → P (on_rung tier (λ rung now. T.get rung now key) s).0
  pub held :
      (s : Shared S) (tier : TierId) (key : List ℕ)
      → P s
      → P (on_rung tier (λ rung now. T.contains rung now key) s).0
  pub stored :
      (s : Shared S) (tier : TierId) (key : List ℕ) (value : V) (ttl : Option ℕ)
      → is_cache_rung tier ≡ true
      → P s
      → P (on_rung tier (λ rung now. T.set rung now key value ttl) s).0
  pub removed :
      (s : Shared S) (idx : ℕ) (key : List ℕ)
      → idx ≢ authority_rung_index
      → P s
      → P (on_index idx (λ rung now. T.remove rung now key) s).0
  pub nominated :
      (s : Shared S) (tier : TierId)
      → is_cache_rung tier ≡ true
      → P s
      → P
          (on_rung tier
            (λ rung now.
              ((T.eviction_candidate rung now).0, ok ((T.eviction_candidate rung now).1)))
            s).0
  pub evicted :
      (s : Shared S) (tier : TierId) (address : KeyAddress)
      → is_cache_rung tier ≡ true
      → P s
      → P (on_rung tier (λ rung _. T.remove_if_address rung address) s).0
  pub noted : (s : Shared S) (log : List OperationRecord) → P s → P (record s { log = log })
  pub rated : (s : Shared S) (registry : TierRegistry) → P s → P (record s { registry = registry })

module _ {S : Type 0} (P : Shared S → Type 0) where
  -- A function of the shared state that keeps the property, and awaits at which the others do.
  abbrev pub Preserves : (Shared S → Shared S) → Type 0
  Preserves f = (s : Shared S) → P s → P (f s)

  abbrev pub IsFair : List (Await S) → Type 0
  IsFair schedule = All (λ a. Preserves a.before × Preserves a.after) schedule

  pub record Maintains {A : Type 0} (m : Task S A) : Type 0 where
    pub at :
        (w : World S) → P w.shared → IsFair w.schedule → P (m w).1.shared × IsFair (m w).1.schedule

module _ {S : Type 0} {P : Shared S → Type 0} where
  module _ {A : Type 0} where
    pub Maintains-pure : (a : A) → Maintains P (pure a)
    unfolding pure
    Maintains-pure a = record { at = λ w h fair. (h, fair) }

    pub Maintains-raise : (e : CacheError) → Maintains P (raise {A = A} e)
    unfolding raise
    Maintains-raise e = record { at = λ w h fair. (h, fair) }

    pub Maintains-lift : (r : Result A) → Maintains P (lift r)
    unfolding lift
    Maintains-lift r = record { at = λ w h fair. (h, fair) }

    pub Maintains-gets : (f : Shared S → A) → Maintains P (gets f)
    unfolding gets
    Maintains-gets f = record { at = λ w h fair. (h, fair) }

    pub Maintains-now_do :
        (f : Shared S → Shared S × Result A) → Preserves P (λ s. (f s).0) → Maintains P (now_do f)
    unfolding now_do
    Maintains-now_do f kf = record { at = λ w h fair. (kf w.shared h, fair) }

    pub Maintains-attempt : (m : Task S A) → Maintains P m → Maintains P (attempt m)
    unfolding attempt
    Maintains-attempt m km = record { at = λ w h fair. caught_keeps (m w) (km.at w h fair) }
      where
        caught_keeps :
            (r : Exit A × World S)
            → P r.1.shared × IsFair P r.1.schedule
            → P (caught r).1.shared × IsFair P (caught r).1.schedule
        caught_keeps (returns a, w) h = h
        caught_keeps (raises e, w) h = h
        caught_keeps (drops, w) h = h

    pub Maintains-guarded :
        (release : Shared S → Shared S) (m : Task S A)
        → Preserves P release
        → Maintains P m
        → Maintains P (guarded release m)
    unfolding guarded
    Maintains-guarded release m kr km = record {
      at = λ w h fair. released_keeps (m w) (km.at w h fair);
    }
      where
        released_keeps :
            (r : Exit A × World S)
            → P r.1.shared × IsFair P r.1.schedule
            → P (released release r).1.shared × IsFair P (released release r).1.schedule
        released_keeps (returns a, w) h = h
        released_keeps (raises e, w) h = (kr w.shared h.0, h.1)
        released_keeps (drops, w) h = (kr w.shared h.0, h.1)

    -- However the await ends, and whether its future has worked.
    settled_keeps :
        (a : Await S) (rest : List (Await S)) (f : Shared S → Shared S × Result A) (fate : Fate)
        (s : Shared S)
        → P s
        → Preserves P a.before × Preserves P a.after
        → IsFair P rest
        → Preserves P (λ s. (f s).0)
        → P (settled a rest f fate s).1.shared × IsFair P (settled a rest f fate s).1.schedule
    settled_keeps a rest f completes s h k fair kf = (k.1 _ (kf _ (k.0 s h)), fair)
    settled_keeps a rest f (expires true) s h k fair kf = (k.1 _ (kf _ (k.0 s h)), fair)
    settled_keeps a rest f (expires false) s h k fair kf = (k.1 _ (k.0 s h), fair)
    settled_keeps a rest f (leaves true) s h k fair kf = (k.1 _ (kf _ (k.0 s h)), fair)
    settled_keeps a rest f (leaves false) s h k fair kf = (k.1 _ (k.0 s h), fair)

    awaited_keeps :
        (bound : Fate → Fate) (f : Shared S → Shared S × Result A) (s : Shared S)
        (schedule : List (Await S))
        → P s
        → IsFair P schedule
        → Preserves P (λ s. (f s).0)
        → P (awaited bound f s schedule).1.shared × IsFair P (awaited bound f s schedule).1.schedule
    awaited_keeps bound f s [] h fair kf = (kf s h, tt)
    awaited_keeps bound f s (a ∷ rest) h fair kf =
        settled_keeps a rest f (bound a.fate) s h fair.0 fair.1 kf

    pub Maintains-bounded :
        (f : Shared S → Shared S × Result A) → Preserves P (λ s. (f s).0) → Maintains P (bounded f)
    unfolding bounded
    Maintains-bounded f kf = record {
      at = λ w h fair. awaited_keeps (λ fate. fate) f w.shared w.schedule h fair kf;
    }

    pub Maintains-unbounded :
        (f : Shared S → Shared S × Result A)
        → Preserves P (λ s. (f s).0)
        → Maintains P (unbounded f)
    unfolding unbounded
    Maintains-unbounded f kf = record {
      at = λ w h fair. awaited_keeps unbounded_fate f w.shared w.schedule h fair kf;
    }

    pub Maintains-if :
        (b : Bool) (m n : Task S A)
        → (b ≡ true → Maintains P m)
        → (b ≡ false → Maintains P n)
        → Maintains P (if b then m else n)
    Maintains-if true m n km kn = km refl
    Maintains-if false m n km kn = kn refl

  module _ {A B : Type 0} where
    pub Maintains-option_case :
        (o : Option A) (f : A → Task S B) (n : Task S B)
        → ((a : A) → Maintains P (f a))
        → Maintains P n
        → Maintains P (option_case o f n)
    Maintains-option_case (some a) f n kf kn = kf a
    Maintains-option_case none f n kf kn = kn

    pub Maintains-result_case :
        (r : Result A) (f : A → Task S B) (g : CacheError → Task S B)
        → ((a : A) → Maintains P (f a))
        → ((e : CacheError) → Maintains P (g e))
        → Maintains P (result_case r f g)
    Maintains-result_case (ok a) f g kf kg = kf a
    Maintains-result_case (err e) f g kf kg = kg e

    pub Maintains-bind :
        (m : Task S A) (f : A → Task S B)
        → Maintains P m
        → ((a : A) → Maintains P (f a))
        → Maintains P (m >>= f)
    unfolding ◌>>=◌
    Maintains-bind m f km kf = record { at = λ w h fair. continue_keeps (m w) (km.at w h fair) }
      where
        continue_keeps :
            (r : Exit A × World S)
            → P r.1.shared × IsFair P r.1.schedule
            → P (continue_with r f).1.shared × IsFair P (continue_with r f).1.schedule
        continue_keeps (returns a, w) h = (kf a).at w h.0 h.1
        continue_keeps (raises e, w) h = h
        continue_keeps (drops, w) h = h

    -- What is read of the shared state is known of it.
    pub Maintains-gets_bind :
        (g : Shared S → A) (f : A → Task S B)
        → ((s : Shared S) → Maintains P (f (g s)))
        → Maintains P (gets g >>= f)
    unfolding ◌>>=◌ gets
    Maintains-gets_bind g f kf = record { at = λ w h fair. (kf w.shared).at w h fair }

  pub Maintains-then :
      {B : Type 0} (m : Task S (Unit {0})) (k : Task S B)
      → Maintains P m
      → Maintains P k
      → Maintains P (m >> k)
  unfolding ◌>>◌
  Maintains-then m k km kk = Maintains-bind m (λ _. k) km (λ _. kk)

pub ruleset maintains_rules = (
  Maintains-pure, Maintains-raise, Maintains-lift, Maintains-gets, Maintains-attempt, Maintains-if,
  Maintains-option_case, Maintains-result_case, Maintains-bind, Maintains-then,
)
