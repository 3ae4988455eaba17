-- ===== src/Manager/Returns.antt =====
-- What holds of the shared state where a task of the manager returns. One rule for each way to build a
-- task, with what is known of the state before it.
pub mod Commits
pub mod Writes
use the_six.Base.{◌≡◌, refl, ap, subst, Bool, true, false, if◌then◌else◌, arith}
use the_six.Base.Result.{ok_injective, CacheError, Result, ok, err}
use the_six.Manager.{
  Shared, World, Exit, returns, raises, drops, Task, exit_of, pure, raise, lift, continue_with,
  ◌>>=◌, ◌>>◌, attempt, guarded, now_do, caught, released,
}
use the_six.Manager.Maintains.{IsFair, Preserves, Maintains}

-- Where the task starts in a state with `Pre`, under a schedule that keeps `P`, and returns, the value
-- and the state have `R`.
pub record Yields {S : Type 0} (P Pre : Shared S → Type 0) {A : Type 0} (R : A → Shared S → Type 0)
    (m : Task S A) : Type 0 where
  pub at :
      (w : World S)
      → P w.shared
      → IsFair P w.schedule
      → Pre w.shared
      → (a : A) → (m w).0 ≡ returns a
      → R a (m w).1.shared

abbrev returned_value : {A : Type 0} → A → Exit A → A
returned_value a (returns b) = b
returned_value a (raises e) = a
returned_value a drops = a

returns_injective : {A : Type 0} {a b : A} → returns a ≡ returns b → a ≡ b
returns_injective {a = a} e = ap (returned_value a) e

exit_of-returns :
    {A : Type 0} (R : A → Type 0) (r : Result A) (a : A)
    → ((b : A) → r ≡ ok b → R b)
    → exit_of r ≡ returns a
    → R a
exit_of-returns R (ok b) a h d = h a (ap ok (returns_injective d))
exit_of-returns R (err e) a h d = absurd (ground (arith, d))

-- Nothing is known.
abbrev pub Any : {S : Type 0} → Shared S → Type 0
Any s = Unit

abbrev pub AnyOf : {S A : Type 0} → A → Shared S → Type 0
AnyOf a s = Unit

module _ {S : Type 0} {P Pre : Shared S → Type 0} where
  module _ {A : Type 0} where
    pub Yields-any : (m : Task S A) → Yields P Pre AnyOf m
    Yields-any m = record { at = λ w h fair p a d. tt }

    module _ {R : A → Shared S → Type 0} where
      pub Yields-pure : (a : A) → ((s : Shared S) → P s → Pre s → R a s) → Yields P Pre R (pure a)
      unfolding pure
      Yields-pure a h = record {
        at = λ w hp fair p b d.
            exit_of-returns (λ x. R x w.shared) (ok a) b
              (λ c e. subst (λ x. R x w.shared) (ok_injective e) (h w.shared hp p)) d;
      }

      pub Yields-raise : (e : CacheError) → Yields P Pre R (raise e)
      unfolding raise
      Yields-raise e = record { at = λ w hp fair p b d. absurd (ground (arith, d)) }

      pub Yields-lift :
          (r : Result A)
          → ((s : Shared S) → P s → Pre s → (a : A) → r ≡ ok a → R a s)
          → Yields P Pre R (lift r)
      unfolding lift
      Yields-lift r h = record {
        at = λ w hp fair p b d. exit_of-returns (λ x. R x w.shared) r b (h w.shared hp p) d;
      }

      pub Yields-now_do :
          (f : Shared S → Shared S × Result A)
          → ((s : Shared S) → P s → Pre s → (a : A) → (f s).1 ≡ ok a → R a (f s).0)
          → Yields P Pre R (now_do f)
      unfolding now_do
      Yields-now_do f h = record {
        at = λ w hp fair p b d.
            exit_of-returns (λ x. R x (f w.shared).0) (f w.shared).1 b (h w.shared hp p) d;
      }

      pub Yields-guarded :
          (release : Shared S → Shared S) (m : Task S A)
          → Yields P Pre R m
          → Yields P Pre R (guarded release m)
      unfolding guarded
      Yields-guarded release m y = record {
        at = λ w hp fair p. released_yields (m w) (y.at w hp fair p);
      }
        where
          released_yields :
              (r : Exit A × World S)
              → ((a : A) → r.0 ≡ returns a → R a r.1.shared)
              → (a : A) → (released release r).0 ≡ returns a
              → R a (released release r).1.shared
          released_yields (returns b, w) h a d = h a d
          released_yields (raises e, w) h a d = absurd (ground (arith, d))
          released_yields (drops, w) h a d = absurd (ground (arith, d))

      pub Yields-if :
          (b : Bool) (m n : Task S A)
          → Yields P Pre R m
          → Yields P Pre R n
          → Yields P Pre R (if b then m else n)
      Yields-if true m n ym yn = ym
      Yields-if false m n ym yn = yn

    -- An attempt returns what the task returned, or the error that it raised.
    pub Yields-attempt :
        {R : Result A → Shared S → Type 0} (m : Task S A)
        → Yields P Pre (λ a s. R (ok a) s) m
        → ((e : CacheError) (s : Shared S) → R (err e) s)
        → Yields P Pre R (attempt m)
    unfolding attempt
    Yields-attempt {R = R} m y h = record {
      at = λ w hp fair p. caught_yields (m w) (y.at w hp fair p);
    }
      where
        caught_yields :
            (r : Exit A × World S)
            → ((a : A) → r.0 ≡ returns a → R (ok a) r.1.shared)
            → (b : Result A) → (caught r).0 ≡ returns b
            → R b (caught r).1.shared
        caught_yields (returns a, w) k b d =
            subst (λ x. R x w.shared) (returns_injective d) (k a refl)
        caught_yields (raises e, w) k b d =
            subst (λ x. R x w.shared) (returns_injective d) (h e w.shared)
        caught_yields (drops, w) k b d = absurd (ground (arith, d))

  module _ {A B : Type 0} {R : B → Shared S → Type 0} where
    pub Yields-bind :
        (R' : A → Shared S → Type 0) (m : Task S A) (f : A → Task S B)
        → Maintains P m
        → Yields P Pre R' m
        → ((a : A) → Yields P (R' a) R (f a))
        → Yields P Pre R (m >>= f)
    unfolding ◌>>=◌
    Yields-bind R' m f km ym yf = record {
      at = λ w hp fair p. continue_yields (m w) (km.at w hp fair) (ym.at w hp fair p);
    }
      where
        continue_yields :
            (r : Exit A × World S)
            → P r.1.shared × IsFair P r.1.schedule
            → ((a : A) → r.0 ≡ returns a → R' a r.1.shared)
            → (b : B) → (continue_with r f).0 ≡ returns b
            → R b (continue_with r f).1.shared
        continue_yields (returns a, w) h k b d = (yf a).at w h.0 h.1 (k a refl) b d
        continue_yields (raises e, w) h k b d = absurd (ground (arith, d))
        continue_yields (drops, w) h k b d = absurd (ground (arith, d))

  module _ {B : Type 0} {R : B → Shared S → Type 0} where
    pub Yields-then :
        (m : Task S (Unit {0})) (k : Task S B)
        → Maintains P m
        → Yields P Any R k
        → Yields P Pre R (m >> k)
    unfolding ◌>>◌
    Yields-then m k km yk = Yields-bind AnyOf m (λ _. k) km (Yields-any m) (λ _. yk)

    -- Nothing is known of what the first task leaves.
    pub Yields-next :
        {A : Type 0} (m : Task S A) (f : A → Task S B)
        → Maintains P m
        → ((a : A) → Yields P Any R (f a))
        → Yields P Pre R (m >>= f)
    Yields-next m f km yf = Yields-bind AnyOf m f km (Yields-any m) yf

    pub Yields-ok_bind :
        {A : Type 0} (r : Result A) (a : A) (f : A → Task S B)
        → r ≡ ok a
        → Yields P Pre R (f a)
        → Yields P Pre R (lift r >>= f)
    unfolding ◌>>=◌ lift
    Yields-ok_bind r a f h y = rw h (record { at = λ w. y.at w })

    -- What a call that awaits nothing returned is known of what follows.
    pub Yields-now_do_bind :
        {A : Type 0} (f : Shared S → Shared S × Result A) (g : A → Task S B)
        → Preserves P (λ s. (f s).0)
        → ((s : Shared S) → P s → (a : A) → (f s).1 ≡ ok a → Yields P Any R (g a))
        → Yields P Pre R (now_do f >>= g)
    unfolding ◌>>=◌ now_do
    Yields-now_do_bind {A = A} f g kf yg = record {
      at = λ w h fair p. continue_yields w (kf w.shared h) fair (f w.shared).1 (yg w.shared h);
    }
      where
        continue_yields :
            (w : World S)
            → P (f w.shared).0
            → IsFair P w.schedule
            → (r : Result A) → ((a : A) → r ≡ ok a → Yields P Any R (g a))
            → (b : B)
            → let v : World S = record w { shared = (f w.shared).0 } in
              (continue_with (exit_of r, v) g).0 ≡ returns b
              → R b (continue_with (exit_of r, v) g).1.shared
        continue_yields w h fair (ok a) y b d = (y a refl).at _ h fair tt b d
        continue_yields w h fair (err e) y b d = absurd (ground (arith, d))
