-- ===== src/Tier/Registry/Circuit.antt =====
-- When the circuit of a rung is open, and which rung a fallback chooses.
use the_six.Base.{
  ℕ, ◌+◌, ◌<◌, ◌≡◌, refl, ap, ◌∙◌, ◌⊎◌, inl, inr, Bool, true, false, ◌||◌, List, [], ◌∷◌, arith,
  ◌==◌, ==_iff, leb, length, get_or, set, length-set, get_or-set_self, get_or-set_ne, Bool-cases,
  if◌then◌else◌, get_or-replicate,
}
use the_six.Tier.{TierId, as_usize}
use the_six.Tier.Codes.{as_usize-lt}
use the_six.Tier.Registry.{TierRegistry, new_registry, failures_of, fail, recover, is_tier_open}

-- What is reported to the registry, the latest report first.
pub data Report : Type 0 where
  fails recovers : TierId → Report

unfoldable pub registry_after : List Report → TierRegistry
unfolding new_registry fail recover
registry_after [] = new_registry
registry_after (fails t ∷ reports) = fail (registry_after reports) t
registry_after (recovers t ∷ reports) = recover (registry_after reports) t

-- How many failures of a rung were reported since its last recovery.
unfoldable pub streak : TierId → List Report → ℕ
unfolding as_usize
streak t [] = 0
streak t (fails u ∷ reports) =
    let rest = streak t reports in if as_usize u == as_usize t then rest + 1 else rest
streak t (recovers u ∷ reports) =
    let rest = streak t reports in if as_usize u == as_usize t then 0 else rest

get_or-set :
    (xs : List ℕ) (i j v : ℕ)
    → i < length xs
    → get_or (set xs i v) j 0 ≡ (if i == j then v else get_or xs j 0)
get_or-set xs i j v h = elim (Bool-cases (i == j)) [
  | inl e ↦ rw (e, ← (==_iff i j).0 e) (get_or-set_self xs i v 0 h)
  | inr e ↦ rw e (get_or-set_ne xs i j v 0 (λ p. ground (arith, p, e)))
]

length-after : (reports : List Report) → length (registry_after reports).failures ≡ 7
unfolding registry_after
length-after [] = refl
length-after (fails t ∷ reports) =
    length-set (registry_after reports).failures (as_usize t) _ ∙ length-after reports
length-after (recovers t ∷ reports) =
    length-set (registry_after reports).failures (as_usize t) 0 ∙ length-after reports

failures_of-after :
    (t : TierId) (reports : List Report) → failures_of (registry_after reports) t ≡ streak t reports
unfolding registry_after streak
failures_of-after t [] = get_or-replicate 7 (as_usize t) 0
failures_of-after t (fails u ∷ reports) =
    let r = registry_after reports in
    let bound = as_usize-lt u in
    let len = length-after reports in
    ground (
      arith,
      get_or-set r.failures (as_usize u) (as_usize t) (failures_of r u + 1)
          (omega (arith, bound, len)),
      failures_of-after t reports,
      failures_of-after u reports,
    )
failures_of-after t (recovers u ∷ reports) =
    let r = registry_after reports in
    let bound = as_usize-lt u in
    let len = length-after reports in
    ground (
      arith,
      get_or-set r.failures (as_usize u) (as_usize t) 0 (omega (arith, bound, len)),
      failures_of-after t reports,
    )

-- The circuit of a rung is open exactly where five or more failures of that rung were reported since
-- its last recovery, whatever was reported of other rungs.
pub is_tier_open-streak :
    (t : TierId) (reports : List Report)
    → is_tier_open (registry_after reports) t ≡ leb 5 (streak t reports)
unfolding is_tier_open
is_tier_open-streak t reports = ap (λ n. leb 5 n) (failures_of-after t reports)

-- Whether a rung stands in a list.
abbrev pub holds_tier : List TierId → TierId → Bool
holds_tier [] t = false
holds_tier (u ∷ tiers) t = as_usize u == as_usize t || holds_tier tiers t

-- A rung that a fallback passes over is excluded or has an open circuit.
abbrev pub IsPassed : TierRegistry → TierId → TierId → Type 0
IsPassed r exclude t = ((as_usize t == as_usize exclude) ≡ true) ⊎ (is_tier_open r t ≡ true)
