-- ===== src/Manager/Rungs/Framed.antt =====
-- The framed keys of `encode_key` in `src/manager.rs`.
use the_six.Base.{
  ℕ, ◌≡◌, refl, List, length, take, drop, ◌++◌, replicate, ltb, Bool-cases, inl, inr, arith, ap,
  ◌∙◌, sym,
}
use the_six.Base.Result.{ok, err, Result-cases, ok_injective}
use the_six.Key.{encode, frame_tenant_key}
use the_six.Key.Frames.{take-++, frame_tenant_key_apart}
use the_six.Manager.Rungs.{CacheContext, encode_key, max_key_size}

encode-take :
    (bytes buf : List ℕ) (n : ℕ) (raw : List ℕ)
    → encode bytes buf ≡ ok (n, raw)
    → take n raw ≡ bytes
unfolding encode
encode-take bytes buf n raw h = elim (Bool-cases (ltb (length buf) (length bytes))) [
  | inl short ↦ absurd (ground (arith, h))
  | inr long ↦
      let made : encode bytes buf ≡ ok (length bytes, bytes ++ drop (length bytes) buf) =
        rw (encode, long) refl in
      let same = ok_injective (sym h ∙ made) in
      rw (ap (λ p. p.0) same, ap (λ p. p.1) same) (take-++ bytes (drop (length bytes) buf))
]

encode_key-frame :
    (key : List ℕ) (ctx : CacheContext) (framed : List ℕ)
    → encode_key key ctx ≡ ok framed
    → (n : ℕ) × (out : List ℕ) × (frame_tenant_key ctx.tenant key (replicate max_key_size 0)
        ≡ ok (n, out))
      × (take n out ≡ framed)
unfolding encode_key
encode_key-frame key ctx framed h = elim (Result-cases (encode key (replicate max_key_size 0))) [
  | inr (e, failed) ↦
      let refused : encode_key key ctx ≡ err e = rw (encode_key, failed) refl in
      absurd (ground (arith, h, refused))
  | inl ((len, raw), made) ↦
      let whole = encode-take key (replicate max_key_size 0) len raw made in
      elim (Result-cases (frame_tenant_key ctx.tenant (take len raw) (replicate max_key_size 0))) [
        | inr (e, failed) ↦
            let refused : encode_key key ctx ≡ err e = rw (encode_key, made, failed) refl in
            absurd (ground (arith, h, refused))
        | inl ((n, out), cut) ↦
            let done : encode_key key ctx ≡ ok (take n out) = rw (encode_key, made, cut) refl in
            (
              n,
              out,
              ap (λ k. frame_tenant_key ctx.tenant k (replicate max_key_size 0)) (sym whole) ∙ cut,
              ok_injective (sym done ∙ h),
            )
      ]
]

-- Two tenants share no key of the cache: where two callers' keys are encoded to the same bytes, their
-- tenants are the same, and so are their keys.
pub encode_key_apart :
    (key key' : List ℕ) (ctx ctx' : CacheContext) (framed : List ℕ)
    → encode_key key ctx ≡ ok framed
    → encode_key key' ctx' ≡ ok framed
    → (ctx.tenant ≡ ctx'.tenant) × (key ≡ key')
encode_key_apart key key' ctx ctx' framed h h' =
    let (n, out, cut, same) = encode_key-frame key ctx framed h in
    let (n', out', cut', same') = encode_key-frame key' ctx' framed h' in
    frame_tenant_key_apart ctx.tenant ctx'.tenant key key' _ _ n n' out out' cut cut'
      (same ∙ sym same')
