-- ===== src/Integrity.antt =====
-- `src/integrity.rs`: digests, fingerprints, and the address of a key in the control plane.
use Prim.Native.Nat.{bit_xor}
use the_six.Base.{
  ℕ, ◌+◌, ◌*◌, ◌%◌, ◌^◌, Bool, true, false, ◌&&◌, List, [], ◌∷◌, ◌==◌, length, u64_mod,
  if◌then◌else◌,
}

abbrev pub fnv_offset_a : ℕ
fnv_offset_a = 0xcbf2_9ce4_8422_2325

abbrev pub fnv_offset_b : ℕ
fnv_offset_b = 0x9ae1_6a3b_2f90_404f

abbrev pub fnv_prime : ℕ
fnv_prime = 0x0000_0100_0000_01b3

-- `hash ^= b; hash = hash.wrapping_mul(FNV_PRIME)` for each byte.
unfoldable pub fnv1a : List ℕ → ℕ → ℕ
fnv1a [] hash = hash
fnv1a (b ∷ bytes) hash = fnv1a bytes (bit_xor hash b * fnv_prime % u64_mod)

-- `u128::from(a) << 64 | u128::from(b)`: the two lanes of a 128-bit value do not overlap.
unfoldable pub from_hashes : ℕ → ℕ → ℕ
from_hashes a b = a * u64_mod + b

-- `ContentDigest::of_bytes`.
unfoldable pub of_bytes : List ℕ → ℕ
unfolding fnv1a from_hashes
of_bytes bytes = from_hashes (fnv1a bytes fnv_offset_a) (fnv1a bytes fnv_offset_b)

-- `KeyFingerprint::of`: the length is mixed in by an exclusive or, `wrapping_mul` on `u128`.
unfoldable pub fingerprint_of : List ℕ → ℕ
unfolding fnv1a from_hashes
fingerprint_of bytes =
    bit_xor (from_hashes (fnv1a bytes fnv_offset_a) (fnv1a bytes fnv_offset_b))
      (length bytes % u64_mod * fnv_prime % 2 ^ 128)

-- Where a key starts to probe from.
pub data Placement : Type 0 where
  default : Placement
  all_to_zero : Placement
  colliding_pair : List ℕ → Placement

-- `<[u8]>::starts_with`.
unfoldable pub starts_with : List ℕ → List ℕ → Bool
starts_with bytes [] = true
starts_with [] (p ∷ ps) = false
starts_with (b ∷ bytes) (p ∷ ps) = b == p && starts_with bytes ps

unfoldable pub placement_hash : Placement → List ℕ → ℕ
unfolding fnv1a starts_with
placement_hash default bytes = fnv1a bytes fnv_offset_a
placement_hash all_to_zero bytes = 0
placement_hash (colliding_pair prefix) bytes =
    if starts_with bytes prefix then 42 else bit_xor (length bytes % u64_mod) 0xdead_beef_cafe_f00d

-- Identity and placement, kept apart.
pub record KeyAddress : Type 0 where
  pub fingerprint : ℕ
  pub placement : ℕ

-- `KeyAddress::of`.
unfoldable pub address_of : List ℕ → Placement → KeyAddress
unfolding fingerprint_of placement_hash
address_of key strategy = record {
  fingerprint = fingerprint_of key;
  placement = placement_hash strategy key;
}

-- The derived `PartialEq`.
abbrev pub same_address : KeyAddress → KeyAddress → Bool
same_address a b = a.fingerprint == b.fingerprint && a.placement == b.placement
