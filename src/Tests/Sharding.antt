-- ===== src/Tests/Sharding.antt =====
-- Instances of the theorems on the sharded storage.
use the_six.Base.{ℕ, ◌≡◌, ◌≢◌, refl, some, List, [], ◌∷◌, length, arith}
use the_six.Base.Result.{ok}
use the_six.Tier.FixedTierStub.{FixedTierStub}
use the_six.Tier.ShardedStub.{ShardedTierStub, shard_for, get, put}
use the_six.Tier.ShardedStub.Routing.{sharded_put-get, sharded_put-get_other}
use the_six.Tests.Storage.{stub, digest, key, empty_pool-IsWellFormed}

-- The hash of the sample keys is their length.
abbrev by_length : List ℕ → ℕ
by_length k = length k

abbrev two_shards : ShardedTierStub ℕ
two_shards = record { shards = stub ∷ stub ∷ []; mask = 1 }

abbrev other_key : List ℕ
other_key = 97 ∷ 98 ∷ []

written : (put by_length digest 10 two_shards key 7 (some 5)).1 ≡ ok tt
unfolding put
written = refl

sharded_put-get_example :
    (get by_length digest 12 (put by_length digest 10 two_shards key 7 (some 5)).0 key).1
    ≡ ok (some 7)
unfolding shard_for
sharded_put-get_example =
    sharded_put-get by_length digest two_shards key 7 (some 5) 10 12 stub refl
      empty_pool-IsWellFormed written refl

apart : shard_for by_length two_shards key ≢ shard_for by_length two_shards other_key
unfolding shard_for
apart e = ground (arith, e)

sharded_put-get_other_example :
    (get by_length digest 12 (put by_length digest 10 two_shards key 7 (some 5)).0 other_key).1
    ≡ (get by_length digest 12 two_shards other_key).1
sharded_put-get_other_example =
    sharded_put-get_other by_length digest two_shards key 7 (some 5) 10 12 other_key apart

abbrev fresh : FixedTierStub ℕ
fresh = record stub { placement = the_six.Integrity.default }

abbrev four_shards : ShardedTierStub ℕ
four_shards = record { shards = fresh ∷ fresh ∷ fresh ∷ fresh ∷ []; mask = 3 }
