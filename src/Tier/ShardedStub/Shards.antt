-- ===== src/Tier/ShardedStub/Shards.antt =====
-- How many shards `with_shards` of `src/tier/sharded_stub.rs` allocates.
use Prim.Native.Nat.pow
use the_six.Tier.FixedTierStub
