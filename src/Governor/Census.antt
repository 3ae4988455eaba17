-- ===== src/Governor/Census.antt =====
-- `src/governor/census.rs`: the keys that the governor may act on, framed as the manager frames them.
use the_six.Base.{ℕ, ◌≡◌, ◌⊎◌, inl, inr, refl, List, [], ◌∷◌, ◌++◌, take, replicate}
use the_six.Base.Result.{CacheError, Result, ok, err, Result-cases}
use the_six.Key.{encode, frame_tenant_key}
use the_six.Telemetry.{KeyIdentity, identity_of}
use the_six.Manager.Rungs.{CacheContext, encode_key}

-- A key is its bytes.
pub record CensusKey : Type 0 where
  pub key : List ℕ
  pub framed : List ℕ
  pub identity : KeyIdentity

pub record KeyCensus : Type 0 where
  pub context : CacheContext
  pub entries : List CensusKey

abbrev pub manager_key_budget : ℕ
manager_key_budget = 256

unfoldable pub new_census : CacheContext → KeyCensus
new_census context = record { context = context; entries = [] }

abbrev pub census_key : List ℕ → List ℕ → CensusKey
census_key key framed = record { key = key; framed = framed; identity = identity_of framed }

-- `register`; a poisoned lock is not modelled.
unfoldable pub register : KeyCensus → List ℕ → KeyCensus × Result CensusKey
unfolding encode frame_tenant_key identity_of
register census key = elim (encode key (replicate manager_key_budget 0)) [
  | err e ↦ (census, err e)
  | ok (encoded, raw) ↦
      elim (frame_tenant_key census.context.tenant (take encoded raw)
        (replicate manager_key_budget 0)) [
          | err e ↦ (census, err e)
          | ok (len, framed) ↦ (
            record census { entries = census.entries ++ census_key key (take len framed) ∷ [] },
            ok (census_key key (take len framed)),
          )
        ]
]

-- A key that is registered is recorded last, under the bytes by which the manager stores it for a caller
-- with the context of the census, and under their identity; a key that the manager refuses to encode is
-- refused with the same error, and the census is left as it was.
pub register-encode_key :
    (census : KeyCensus) (key : List ℕ)
    → ((framed : List ℕ) × (encode_key key census.context ≡ ok framed)
        × (register census key ≡ (
          record census { entries = census.entries ++ census_key key framed ∷ [] },
          ok (census_key key framed),
        )))
      ⊎ ((e : CacheError) × (encode_key key census.context ≡ err e)
          × (register census key ≡ (census, err e)))
unfolding register encode_key
register-encode_key census key = elim (Result-cases (encode key (replicate manager_key_budget 0))) [
  | inr (e, failed) ↦ inr (e, rw (encode_key, failed) refl, rw (register, failed) refl)
  | inl ((encoded, raw), made) ↦
      elim (Result-cases (
        frame_tenant_key census.context.tenant (take encoded raw)
          (replicate manager_key_budget 0))) [
            | inr (e, refused) ↦
                inr (e, rw (encode_key, made, refused) refl, rw (register, made, refused) refl)
            | inl ((len, framed), cut) ↦
                inl
                  (take len framed, rw (encode_key, made, cut) refl, rw (register, made, cut) refl)
          ]
]
