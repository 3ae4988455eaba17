-- ===== src/Tier.antt =====
-- `src/tier/mod.rs`: the rungs of the ladder, L0 to L5, and the authority rung L6.
pub mod Codes
pub mod FixedTierStub
pub mod ShardedStub
pub mod Registry
pub mod Interface
use the_six.Base.{ℕ, Bool, Option, none, some, List, [], ◌∷◌, leb, ltb, ◌==◌, if◌then◌else◌}

pub data TierId : Type 0 where
  l0 l1 l2 l3 l4 l5 l6 : TierId

-- `TierId::ALL`, in ladder order.
abbrev pub all : List TierId
all = l0 ∷ l1 ∷ l2 ∷ l3 ∷ l4 ∷ l5 ∷ l6 ∷ []

unfoldable pub as_usize : TierId → ℕ
as_usize l0 = 0
as_usize l1 = 1
as_usize l2 = 2
as_usize l3 = 3
as_usize l4 = 4
as_usize l5 = 5
as_usize l6 = 6

unfoldable pub from_usize : ℕ → Option TierId
from_usize idx =
    if idx == 0
    then some l0
    else if idx == 1
    then some l1
    else if idx == 2
    then some l2
    else if idx == 3
    then some l3
    else if idx == 4
    then some l4
    else if idx == 5
    then some l5
    else if idx == 6
    then some l6
    else none

-- `LAST_CACHE_RUNG_INDEX` and `AUTHORITY_RUNG_INDEX`.
abbrev pub last_cache_rung_index : ℕ
last_cache_rung_index = 5

abbrev pub authority_rung_index : ℕ
authority_rung_index = 6

unfoldable pub is_cache_rung : TierId → Bool
unfolding as_usize
is_cache_rung t = leb (as_usize t) last_cache_rung_index

unfoldable pub is_authority_rung : TierId → Bool
unfolding as_usize
is_authority_rung t = as_usize t == authority_rung_index

-- The cast to `u8` loses nothing: an index is at most 6.
unfoldable pub as_u8 : TierId → ℕ
unfolding as_usize
as_u8 t = as_usize t

unfoldable pub from_index : ℕ → Option TierId
unfolding from_usize
from_index index = if ltb index 7 then from_usize index else none
