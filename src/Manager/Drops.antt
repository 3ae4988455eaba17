-- ===== src/Manager/Drops.antt =====
-- What holds of the shared state where a task of the manager is dropped at one of its awaits: the
-- guards of `src/manager.rs` release what the task held. One rule for each way to build a task.
pub mod Intents
pub mod Writes
pub mod Moves
use the_six.Base.{◌≡◌, refl, Bool, true, false, Option, none, some, if◌then◌else◌, arith}
use the_six.Base.Result.{CacheError, Result, ok, err}
use the_six.Manager.{
  Shared, World, Exit, returns, raises, drops, Task, exit_of, pure, raise, lift, continue_with,
  ◌>>=◌, ◌>>◌, attempt, guarded, gets, now_do, caught, released, option_case, result_case,
}
use the_six.Manager.Maintains.{IsFair, Preserves, Maintains, Maintains-gets}

exit_of_ne : {A : Type 0} (r : Result A) → exit_of r ≡ drops → ⊥
exit_of_ne (ok a) h = ground arith
exit_of_ne (err e) h = ground arith

module _ {S : Type 0} (P Q : Shared S → Type 0) where
  -- Where the task is dropped, under a schedule that keeps `P`, it leaves `Q`.
  pub record Clears {A : Type 0} (m : Task S A) : Type 0 where
    pub at : (w : World S) → P w.shared → IsFair P w.schedule → (m w).0 ≡ drops → Q (m w).1.shared

module _ {S : Type 0} {P Q : Shared S → Type 0} where
  module _ {A : Type 0} where
    pub Clears-pure : (a : A) → Clears P Q (pure a)
    unfolding pure
    Clears-pure a = record { at = λ w h fair d. absurd (exit_of_ne (ok a) d) }

    pub Clears-raise : (e : CacheError) → Clears P Q (raise {A = A} e)
    unfolding raise
    Clears-raise e = record { at = λ w h fair d. absurd (exit_of_ne (err e) d) }

    pub Clears-lift : (r : Result A) → Clears P Q (lift r)
    unfolding lift
    Clears-lift r = record { at = λ w h fair d. absurd (exit_of_ne r d) }

    pub Clears-gets : (f : Shared S → A) → Clears P Q (gets f)
    unfolding gets
    Clears-gets f = record { at = λ w h fair d. absurd (exit_of_ne (ok (f w.shared)) d) }

    pub Clears-now_do : (f : Shared S → Shared S × Result A) → Clears P Q (now_do f)
    unfolding now_do
    Clears-now_do f = record { at = λ w h fair d. absurd (exit_of_ne (f w.shared).1 d) }

    pub Clears-attempt : (m : Task S A) → Clears P Q m → Clears P Q (attempt m)
    unfolding attempt
    Clears-attempt m cm = record { at = λ w h fair. caught_clears (m w) (cm.at w h fair) }
      where
        caught_clears :
            (r : Exit A × World S)
            → (r.0 ≡ drops → Q r.1.shared)
            → (caught r).0 ≡ drops
            → Q (caught r).1.shared
        caught_clears (returns a, w) h d = absurd (ground (arith, d))
        caught_clears (raises e, w) h d = absurd (ground (arith, d))
        caught_clears (drops, w) h d = h refl

    -- A guard that leaves `Q` where it is dropped.
    pub Clears-guarded :
        (release : Shared S → Shared S) (m : Task S A)
        → ((s : Shared S) → P s → Q (release s))
        → Maintains P m
        → Clears P Q (guarded release m)
    unfolding guarded
    Clears-guarded release m cr km = record {
      at = λ w h fair. released_clears (m w) (km.at w h fair).0;
    }
      where
        released_clears :
            (r : Exit A × World S)
            → P r.1.shared
            → (released release r).0 ≡ drops
            → Q (released release r).1.shared
        released_clears (returns a, w) h d = absurd (ground (arith, d))
        released_clears (raises e, w) h d = absurd (ground (arith, d))
        released_clears (drops, w) h d = cr w.shared h

    pub Clears-if :
        (b : Bool) (m n : Task S A) → Clears P Q m → Clears P Q n → Clears P Q (if b then m else n)
    Clears-if true m n cm cn = cm
    Clears-if false m n cm cn = cn

  module _ {A B : Type 0} where
    pub Clears-option_case :
        (o : Option A) (f : A → Task S B) (n : Task S B)
        → ((a : A) → Clears P Q (f a))
        → Clears P Q n
        → Clears P Q (option_case o f n)
    Clears-option_case (some a) f n cf cn = cf a
    Clears-option_case none f n cf cn = cn

    pub Clears-result_case :
        (r : Result A) (f : A → Task S B) (g : CacheError → Task S B)
        → ((a : A) → Clears P Q (f a))
        → ((e : CacheError) → Clears P Q (g e))
        → Clears P Q (result_case r f g)
    Clears-result_case (ok a) f g cf cg = cf a
    Clears-result_case (err e) f g cf cg = cg e

    pub Clears-bind :
        (m : Task S A) (f : A → Task S B)
        → Maintains P m
        → Clears P Q m
        → ((a : A) → Clears P Q (f a))
        → Clears P Q (m >>= f)
    unfolding ◌>>=◌
    Clears-bind m f km cm cf = record {
      at = λ w h fair. continue_clears (m w) (km.at w h fair) (cm.at w h fair);
    }
      where
        continue_clears :
            (r : Exit A × World S)
            → P r.1.shared × IsFair P r.1.schedule
            → (r.0 ≡ drops → Q r.1.shared)
            → (continue_with r f).0 ≡ drops
            → Q (continue_with r f).1.shared
        continue_clears (returns a, w) h c d = (cf a).at w h.0 h.1 d
        continue_clears (raises e, w) h c d = absurd (ground (arith, d))
        continue_clears (drops, w) h c d = c refl

    pub Clears-ok_bind :
        (r : Result A) (a : A) (f : A → Task S B)
        → r ≡ ok a
        → Clears P Q (f a)
        → Clears P Q (lift r >>= f)
    unfolding ◌>>=◌ lift
    Clears-ok_bind r a f h cf = rw h (record { at = λ w. cf.at w })

    -- What a call that awaits nothing returned is known of what follows.
    pub Clears-now_do_bind :
        (f : Shared S → Shared S × Result A) (g : A → Task S B)
        → Preserves P (λ s. (f s).0)
        → ((s : Shared S) → P s → (a : A) → (f s).1 ≡ ok a → Clears P Q (g a))
        → Clears P Q (now_do f >>= g)
    unfolding ◌>>=◌ now_do
    Clears-now_do_bind f g kf cg = record {
      at = λ w h fair. continue_clears w (kf w.shared h) fair (f w.shared).1 (cg w.shared h);
    }
      where
        continue_clears :
            (w : World S)
            → P (f w.shared).0
            → IsFair P w.schedule
            → (r : Result A) → ((a : A) → r ≡ ok a → Clears P Q (g a))
            → let v : World S = record w { shared = (f w.shared).0 } in
              (continue_with (exit_of r, v) g).0 ≡ drops
              → Q (continue_with (exit_of r, v) g).1.shared
        continue_clears w h fair (ok a) c d = (c a refl).at _ h fair d
        continue_clears w h fair (err e) c d = absurd (ground (arith, d))

  pub Clears-then :
      {B : Type 0} (m : Task S (Unit {0})) (k : Task S B)
      → Maintains P m
      → Clears P Q m
      → Clears P Q k
      → Clears P Q (m >> k)
  unfolding ◌>>◌
  Clears-then m k km cm ck = Clears-bind m (λ _. k) km cm (λ _. ck)

pub ruleset clears_rules = (
  Clears-pure, Clears-raise, Clears-lift, Clears-gets, Clears-now_do, Clears-attempt, Clears-if,
  Clears-option_case, Clears-result_case, Clears-bind, Clears-then, Maintains-gets,
)
