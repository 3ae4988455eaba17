-- ===== src/Manager/Operations/Authority.antt =====
-- The rung of the authority under the operations of `src/manager.rs`.
use the_six.Base.{
  ℕ, ◌≡◌, refl, Bool, Option, none, some, List, [], ◌∷◌, map, get_or, set, zero, suc, ap, sym,
  subst, ◌∙◌, Option-cases, inl, inr,
}
use the_six.Base.Result.{Result}
use the_six.Tier.{TierId, as_usize, authority_rung_index}
use the_six.Tier.Interface.{CacheTier}
use the_six.Policy.{CacheOperation, CacheState, PolicyDecision}
use the_six.Manager.{Shared, World}
use the_six.Manager.Rungs.{on_index, on_rung}
use the_six.Manager.Maintains.{Stable, IsFair}
use the_six.Manager.Maintains.Primitives.{as_usize-ne}
use the_six.Manager.Operations.{Request, handle, Maintains-handle}

module _ {S : Type 0} where
  module _ (Q : S → Type 0) where
    abbrev pub Holds : Option S → Type 0
    Holds none = Unit
    Holds (some rung) = Q rung

    -- The rung of the authority, if one is bound, has the property.
    abbrev pub OnAuthority : Shared S → Type 0
    OnAuthority s = Holds (get_or (map some s.rungs) authority_rung_index none)

    set-Holds :
        (rungs : List S) (i j : ℕ) (rung : S)
        → (i ≡ j → Q rung)
        → Holds (get_or (map some rungs) j none)
        → Holds (get_or (map some (set rungs i rung)) j none)
    set-Holds [] i j rung q h = h
    set-Holds (x ∷ xs) zero zero rung q h = q refl
    set-Holds (x ∷ xs) zero (suc j) rung q h = h
    set-Holds (x ∷ xs) (suc i) zero rung q h = h
    set-Holds (x ∷ xs) (suc i) (suc j) rung q h = set-Holds xs i j rung (λ e. q (ap suc e)) h

    on_index-OnAuthority :
        {A : Type 0} (idx : ℕ) (access : S → ℕ → S × Result A) (s : Shared S)
        → (idx ≡ authority_rung_index → (rung : S) → Q rung → Q (access rung s.now).0)
        → OnAuthority s
        → OnAuthority (on_index idx access s).0
    unfolding on_index
    on_index-OnAuthority idx access s q h =
        elim (Option-cases (get_or (map some s.rungs) idx none)) [
          | inl missing ↦ rw (on_index, missing) h
          | inr (rung, found) ↦
              rw (on_index, found)
                (set-Holds s.rungs idx authority_rung_index (access rung s.now).0
                  (λ e.
                    q e rung
                      (subst Holds (ap (λ i. get_or (map some s.rungs) i none) (sym e) ∙ found) h))
                  h)
        ]

    module _ {V : Type 0} (T : CacheTier V S)
        (got : (rung : S) (now : ℕ) (key : List ℕ) → Q rung → Q (T.get rung now key).0)
        (held : (rung : S) (now : ℕ) (key : List ℕ) → Q rung → Q (T.contains rung now key).0) where
      on_rung-OnAuthority :
          {A : Type 0} (tier : TierId) (access : S → ℕ → S × Result A) (s : Shared S)
          → (as_usize tier ≡ authority_rung_index → (rung : S) → Q rung → Q (access rung s.now).0)
          → OnAuthority s
          → OnAuthority (on_rung tier access s).0
      unfolding on_rung
      on_rung-OnAuthority tier access s q h = on_index-OnAuthority (as_usize tier) access s q h

      authority-Stable : Stable T OnAuthority
      authority-Stable = record {
        called = λ s call t h. h;
        got = λ s tier key h. on_rung-OnAuthority tier _ s (λ e rung q. got rung s.now key q) h;
        held = λ s tier key h. on_rung-OnAuthority tier _ s (λ e rung q. held rung s.now key q) h;
        stored = λ s tier key value ttl c h.
            on_rung-OnAuthority tier _ s (λ e. absurd (as_usize-ne tier c e)) h;
        removed = λ s idx key other h. on_index-OnAuthority idx _ s (λ e. absurd (other e)) h;
        nominated =
            λ s tier c h. on_rung-OnAuthority tier _ s (λ e. absurd (as_usize-ne tier c e)) h;
        evicted = λ s tier address c h.
            on_rung-OnAuthority tier _ s (λ e. absurd (as_usize-ne tier c e)) h;
        noted = λ s log h. h;
        rated = λ s registry h. h;
      }

      -- No operation of the manager writes, removes or evicts at the authority's rung: a property of
      -- its state that lookups keep, and that what happens at each await keeps, holds after any
      -- operation where it holds before, wherever the operation ends.
      pub handle-OnAuthority :
          (select : CacheOperation → CacheState → Bool → PolicyDecision) (authority : TierId)
          (request : Request V) (w : World S)
          → OnAuthority w.shared
          → IsFair OnAuthority w.schedule
          → OnAuthority (handle T select authority request w).1.shared
      handle-OnAuthority select authority request w h fair =
          ((Maintains-handle T select authority authority-Stable request).at w h fair).0
