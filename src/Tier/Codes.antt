-- ===== src/Tier/Codes.antt =====
-- The rung ids as numbers: the conversions of `src/tier/mod.rs` are inverse to one another.
use the_six.Base.{ℕ, ◌<◌, ◌≤◌, ◌≡◌, ◌↔◌, ◌≢◌, none, some, true, arith}
use the_six.Tier.{TierId, as_usize, from_usize, is_cache_rung, is_authority_rung, as_u8, from_index}

pub as_usize-lt : (t : TierId) → as_usize t < 7
unfolding as_usize
as_usize-lt t = ground arith

pub from_usize-as_usize : (t : TierId) → from_usize (as_usize t) ≡ some t
unfolding as_usize from_usize
from_usize-as_usize t = ground arith

pub from_index-as_u8 : (t : TierId) → from_index (as_u8 t) ≡ some t
unfolding as_u8 from_index
from_index-as_u8 t = ground arith

-- A byte that names a rung is the byte that the rung is stored as.
pub as_u8-from_index : (i : ℕ) (t : TierId) → from_index i ≡ some t → as_u8 t ≡ i
unfolding as_u8 from_index
as_u8-from_index i t h = ground arith

from_index-eq-none : (i : ℕ) → (from_index i ≡ none) ↔ (7 ≤ i)
unfolding from_index from_usize
from_index-eq-none i = ground arith

-- A rung is in the ladder exactly if it is not the authority.
pub is_cache_rung_iff : (t : TierId) → (is_cache_rung t ≡ true) ↔ (is_authority_rung t ≢ true)
unfolding is_cache_rung is_authority_rung
is_cache_rung_iff t = ground arith
