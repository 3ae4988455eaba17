-- ===== src/Tests/Storage.antt =====
-- Instances of the theorems on pools, rungs, keys and policies.
use the_six.Base.{ℕ, ◌+◌, ◌≡◌, ◌⊎◌, refl, true, none, some, List, [], ◌∷◌, if◌then◌else◌, take}
use the_six.Base.Result.{ok}
use the_six.Tier.{l2, l5, l6, is_cache_rung}
use the_six.Integrity.{all_to_zero, address_of, fingerprint_of}
use the_six.Key.{frame_tenant_key}
use the_six.Key.Frames.{split_frame, frame_tenant_key-split}
use the_six.Policy.{get, set, CacheState, is_circuit_open, default_select}
use the_six.Policy.Routes.{default_select-is_cache_rung, default_select-get}
use the_six.Pool.{MemoryPool, new, allocate, deallocate}
use the_six.Pool
use the_six.Pool.Slots.{IsWellFormed, new-IsWellFormed, allocate_lem}
use the_six.Tier.FixedTierStub.{FixedTierStub, put}
use the_six.Tier.FixedTierStub
use the_six.Tier.FixedTierStub.Values.{put-get}

abbrev pub empty_pool : MemoryPool ℕ
empty_pool = record { slots = none ∷ none ∷ []; free_indices = 1 ∷ 0 ∷ []; capacity = 2 }

abbrev used_pool : MemoryPool ℕ
used_pool = record { slots = none ∷ some 7 ∷ []; free_indices = 0 ∷ []; capacity = 2 }

abbrev capacity : ℕ
capacity = 2

made : new 2 ≡ ok empty_pool
unfolding new
made = refl

pub empty_pool-IsWellFormed : IsWellFormed empty_pool
empty_pool-IsWellFormed = (new-IsWellFormed 2).1 empty_pool made

allocated : allocate empty_pool 7 ≡ ok (used_pool, 1)
unfolding allocate
allocated = refl

used_pool-IsWellFormed : IsWellFormed used_pool
used_pool-IsWellFormed = (allocate_lem empty_pool empty_pool-IsWellFormed 7 used_pool 1 allocated).0

used : Pool.get used_pool 1 ≡ some 7
unfolding Pool.get
used = refl

freed : deallocate used_pool 1 ≡ ok empty_pool
unfolding deallocate
freed = refl

-- Two tables in which all keys collide.
abbrev pub digest : ℕ → ℕ
digest v = v + 1

abbrev pub stub : FixedTierStub ℕ
stub = record {
  pool = empty_pool;
  slots = none ∷ none ∷ [];
  placement = all_to_zero;
  corruptions_detected = 0;
  eviction_cursor = 0;
}

abbrev pub key : List ℕ
key = 97 ∷ []

abbrev written_stub : FixedTierStub ℕ
written_stub = record {
  pool = used_pool;
  slots =
      some (record {
        placement = 0;
        fingerprint = fingerprint_of key;
        digest = 8;
        pool_idx = 1;
        expiry = some (10, 5);
        address = address_of key all_to_zero;
      })
      ∷ none
      ∷ [];
  placement = all_to_zero;
  corruptions_detected = 0;
  eviction_cursor = 0;
}

stored : put digest 10 stub key 7 (some 5) ≡ ok written_stub
unfolding put
stored = refl

put-get_example : FixedTierStub.get digest 12 written_stub key ≡ (written_stub, ok (some 7))
put-get_example =
    put-get digest 10 12 stub key 7 (some 5) written_stub empty_pool-IsWellFormed stored refl

abbrev tenant : List ℕ
tenant = 116 ∷ 49 ∷ []

abbrev buf : List ℕ
buf = 9 ∷ 9 ∷ 9 ∷ 9 ∷ 9 ∷ []

abbrev framed : List ℕ
framed = 116 ∷ 49 ∷ 0 ∷ 97 ∷ 9 ∷ []

frames : frame_tenant_key tenant key buf ≡ ok (4, framed)
unfolding frame_tenant_key
frames = refl

frame_tenant_key-split_example : split_frame (take 4 framed) ≡ (tenant, key)
frame_tenant_key-split_example = frame_tenant_key-split tenant key buf 4 framed frames

abbrev state : CacheState
state = record {
  tier = l2;
  tier_health = record { consecutive_failures = 6; has_availability = true };
}

default_select-is_cache_rung_example :
    (is_cache_rung (default_select set state).tier ≡ true)
    ⊎ ((set ≡ get) × (state.tier ≡ l6) × ((default_select set state).tier ≡ l6))
default_select-is_cache_rung_example = default_select-is_cache_rung set state

on_ladder : is_cache_rung state.tier ≡ true
unfolding is_cache_rung
on_ladder = refl

default_select-get_example :
    (default_select get state).tier ≡ (if is_circuit_open state.tier_health then l5 else state.tier)
default_select-get_example = default_select-get state on_ladder
