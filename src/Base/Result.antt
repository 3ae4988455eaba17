-- ===== src/Base/Result.antt =====
-- `Result<T, CacheError>` with the error type of `src/error.rs`.

use mathlib.Core.Path.{◌≡◌, refl, ap}
use mathlib.Core.Logic.{◌⊎◌, inl, inr}

-- `CacheError`, in the order of the source.
pub data CacheError : Type 0 where
  unauthenticated unauthorized tier_unavailable write_indeterminate policy_denied : CacheError
  miss population_failed timeout cancelled stale_generation write_contended : CacheError
  serialization_failed configuration_error capacity_exhausted corrupted : CacheError
  uncommitted_intent : CacheError

pub data Result {ℓ} (A : Type ℓ) : Type ℓ where
  ok : A → Result A
  err : CacheError → Result A

infixl 5 ◌>>=◌
abbrev pub ◌>>=◌ {ℓ κ} : {A : Type ℓ} {B : Type κ} → Result A → (A → Result B) → Result B
ok a >>= f = f a
err e >>= f = err e

pub Result-cases {ℓ} :
    {A : Type ℓ} (r : Result A) → ((a : A) × (r ≡ ok a)) ⊎ ((e : CacheError) × (r ≡ err e))
Result-cases (ok a) = inl (a, refl)
Result-cases (err e) = inr (e, refl)

abbrev ok_value {ℓ} : {A : Type ℓ} → A → Result A → A
ok_value a (ok b) = b
ok_value a (err e) = a

pub ok_injective {ℓ} : {A : Type ℓ} {a b : A} → ok a ≡ ok b → a ≡ b
ok_injective {a = a} e = ap (ok_value a) e
