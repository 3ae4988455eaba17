-- ===== src/Key.antt =====
-- `src/key.rs`: the frame that keeps the keys of two tenants apart.
pub mod Frames
use the_six.Base.{ℕ, ◌+◌, List, ◌∷◌, ◌++◌, ltb, length, if◌then◌else◌, contains, drop}
use the_six.Base.Result.{Result, ok, err, configuration_error}

abbrev pub max_key_size : ℕ
max_key_size = 512

abbrev pub tenant_separator : ℕ
tenant_separator = 0

-- The length that is needed, and the buffer with the frame at its front. A slice's length is at most
-- `isize::MAX`, so the checked sums of two of them do not fail.
unfoldable pub frame_tenant_key : List ℕ → List ℕ → List ℕ → Result (ℕ × List ℕ)
frame_tenant_key tenant key buf =
    if contains tenant tenant_separator
    then err configuration_error
    else (let needed = length tenant + 1 + length key in
        if ltb (length buf) needed
        then err configuration_error
        else ok (needed, tenant ++ tenant_separator ∷ key ++ drop needed buf))

-- `Key::encode` for `String`, `&str` and byte vectors.
unfoldable pub encode : List ℕ → List ℕ → Result (ℕ × List ℕ)
encode bytes buf =
    if ltb (length buf) (length bytes)
    then err configuration_error
    else ok (length bytes, bytes ++ drop (length bytes) buf)
