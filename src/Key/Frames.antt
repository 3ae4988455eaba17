-- ===== src/Key/Frames.antt =====
-- Frames decode: the tenant and the key of a frame are determined by its bytes.
use the_six.Base.{
  ℕ, ◌+◌, ◌<◌, ◌≡◌, refl, ap, sym, ◌∙◌, ◌↔◌, ◌⊎◌, inl, inr, true, false, List, [], ◌∷◌, ◌++◌, ◌==◌,
  ltb, length, arith, Bool-cases, if◌then◌else◌, contains, take, drop,
}
use the_six.Base.Result.{ok, err, configuration_error}
use the_six.Key.{tenant_separator, frame_tenant_key}

-- What stands before the first separator, and what stands behind it.
unfoldable pub split_frame : List ℕ → List ℕ × List ℕ
split_frame [] = ([], [])
split_frame (b ∷ bytes) =
    let rest = split_frame bytes in
    if b == tenant_separator then ([], bytes) else (b ∷ rest.0, rest.1)

split_frame-++ :
    (tenant key : List ℕ)
    → contains tenant tenant_separator ≡ false
    → split_frame (tenant ++ tenant_separator ∷ key) ≡ (tenant, key)
unfolding split_frame
split_frame-++ [] key h = refl
split_frame-++ (b ∷ tenant) key h = ground (arith, split_frame-++ tenant key)

pub take-++ : (xs ys : List ℕ) → take (length xs) (xs ++ ys) ≡ xs
take-++ [] ys = refl
take-++ (x ∷ xs) ys = ap (λ t. x ∷ t) (take-++ xs ys)

length-++ : (xs ys : List ℕ) → length (xs ++ ys) ≡ length xs + length ys
length-++ [] ys = omega arith
length-++ (x ∷ xs) ys = omega (arith, length-++ xs ys)

-- A frame fails exactly where the tenant has a separator or the buffer is too short.
pub frame_tenant_key-err_iff :
    (tenant key buf : List ℕ)
    → (frame_tenant_key tenant key buf ≡ err configuration_error)
      ↔ ((contains tenant tenant_separator ≡ true) ⊎ (length buf < length tenant + 1 + length key))
unfolding frame_tenant_key
frame_tenant_key-err_iff tenant key buf = ground arith

length-frame :
    (tenant key : List ℕ)
    → length (tenant ++ tenant_separator ∷ key) ≡ length tenant + 1 + length key
length-frame tenant key = omega (arith, length-++ tenant (tenant_separator ∷ key))

take-frame :
    (tenant key rest : List ℕ)
    → take (length tenant + 1 + length key) (tenant ++ tenant_separator ∷ key ++ rest)
      ≡ tenant ++ tenant_separator ∷ key
take-frame tenant key rest =
    rw (← length-frame tenant key) (take-++ (tenant ++ tenant_separator ∷ key) rest)

-- A frame that is made decodes to its tenant and its key.
pub frame_tenant_key-split :
    (tenant key buf : List ℕ) (n : ℕ) (out : List ℕ)
    → frame_tenant_key tenant key buf ≡ ok (n, out)
    → split_frame (take n out) ≡ (tenant, key)
unfolding frame_tenant_key
frame_tenant_key-split tenant key buf n out h =
    elim (Bool-cases (contains tenant tenant_separator)) [
      | inl bad ↦ absurd (ground arith)
      | inr clean ↦ elim (Bool-cases (ltb (length buf) (length tenant + 1 + length key))) [
        | inl short ↦ absurd (ground arith)
        | inr fits ↦
            let size : n ≡ length tenant + 1 + length key = ground arith in
            let bytes : out
                ≡ tenant ++ tenant_separator ∷ key ++ drop (length tenant + 1 + length key) buf =
              ground arith in
            rw (size, bytes, take-frame tenant key (drop (length tenant + 1 + length key) buf))
              (split_frame-++ tenant key clean)
      ]
    ]

-- Two tenants share no key: frames with the same bytes are of the same tenant and the same key.
pub frame_tenant_key_apart :
    (tenant tenant' key key' buf buf' : List ℕ) (n n' : ℕ) (out out' : List ℕ)
    → frame_tenant_key tenant key buf ≡ ok (n, out)
    → frame_tenant_key tenant' key' buf' ≡ ok (n', out')
    → take n out ≡ take n' out'
    → (tenant ≡ tenant') × (key ≡ key')
frame_tenant_key_apart tenant tenant' key key' buf buf' n n' out out' h h' same =
    let p =
      sym (frame_tenant_key-split tenant key buf n out h)
      ∙ ap split_frame same
      ∙ frame_tenant_key-split tenant' key' buf' n' out' h' in
    (ap (λ r. r.0) p, ap (λ r. r.1) p)
