-- ===== src/Tier/ShardedStub/Routing.antt =====
-- Writes and reads through the shards of `src/tier/sharded_stub.rs`.
use the_six.Base.{
  ℕ, ◌≡◌, ◌≢◌, refl, true, Option, none, some, List, get_or, map, arith, inl, inr, Option-cases,
  get_some-set_self, get_some-set_ne, ap, sym, set, ◌∙◌,
}
use the_six.Base.Result.{configuration_error, Result, ok, err, Result-cases}
use the_six.Pool.Slots
use the_six.Tier.FixedTierStub
use the_six.Tier.FixedTierStub.{FixedTierStub}
use the_six.Tier.FixedTierStub.Values
use the_six.Tier.FixedTierStub.Values.{is_alive}
use the_six.Tier.ShardedStub.{ShardedTierStub, shard_for, in_shard, stored, get, put}

module _ {V A : Type 0} (hash : List ℕ → ℕ) where
  in_shard-found :
      (stub : ShardedTierStub V) (idx : ℕ) (access : FixedTierStub V → FixedTierStub V × Result A)
      (shard : FixedTierStub V)
      → get_or (map some stub.shards) idx none ≡ some shard
      → in_shard hash stub idx access
        ≡ (record stub { shards = set stub.shards idx (access shard).0 }, (access shard).1)
  unfolding in_shard
  in_shard-found stub idx access shard found = rw (in_shard, found) refl

  in_shard-missing :
      (stub : ShardedTierStub V) (idx : ℕ) (access : FixedTierStub V → FixedTierStub V × Result A)
      → get_or (map some stub.shards) idx none ≡ none
      → in_shard hash stub idx access ≡ (stub, err configuration_error)
  unfolding in_shard
  in_shard-missing stub idx access missing = rw (in_shard, missing) refl

  -- The result of an access is decided by the shard that it finds.
  in_shard-same :
      (stub stub' : ShardedTierStub V) (idx : ℕ)
      (access : FixedTierStub V → FixedTierStub V × Result A)
      → get_or (map some stub'.shards) idx none ≡ get_or (map some stub.shards) idx none
      → (in_shard hash stub' idx access).1 ≡ (in_shard hash stub idx access).1
  in_shard-same stub stub' idx access same =
      elim (Option-cases (get_or (map some stub.shards) idx none)) [
        | inl missing ↦
            ap (λ r. r.1) (in_shard-missing stub' idx access (same ∙ missing))
            ∙ sym (ap (λ r. r.1) (in_shard-missing stub idx access missing))
        | inr (shard, found) ↦
            ap (λ r. r.1) (in_shard-found stub' idx access shard (same ∙ found))
            ∙ sym (ap (λ r. r.1) (in_shard-found stub idx access shard found))
      ]

module _ {V : Type 0} (hash : List ℕ → ℕ) (content_digest : V → ℕ) (stub : ShardedTierStub V)
    (key : List ℕ) (value : V) (ttl : Option ℕ) (now later : ℕ) where
  abbrev write : FixedTierStub V → FixedTierStub V × Result (Unit {0})
  write shard = stored hash shard (FixedTierStub.put content_digest now shard key value ttl)

  -- What a write has stored, a read of the key returns while its lifetime has not passed, where the pool
  -- of the key's shard is well formed.
  pub sharded_put-get :
      (shard : FixedTierStub V)
      → get_or (map some stub.shards) (shard_for hash stub key) none ≡ some shard
      → Slots.IsWellFormed shard.pool
      → (put hash content_digest now stub key value ttl).1 ≡ ok tt
      → is_alive now later ttl ≡ true
      → (get hash content_digest later (put hash content_digest now stub key value ttl).0 key).1
        ≡ ok (some value)
  unfolding put get shard_for
  sharded_put-get shard found w done alive =
      let there = in_shard-found hash stub (shard_for hash stub key) write shard found in
      elim (Result-cases (FixedTierStub.put content_digest now shard key value ttl)) [
        | inl (shard', written) ↦
            let idx = shard_for hash stub key in
            let stub' = record stub { shards = set stub.shards idx shard' } in
            let read : FixedTierStub V → FixedTierStub V × Result (Option V) =
              λ shard. FixedTierStub.get content_digest later shard key in
            rw (there, written)
              (ap (λ r. r.1)
                  (in_shard-found hash stub' idx read shard'
                    (get_some-set_self stub.shards idx shard shard' found))
                ∙ ap (λ r. r.1)
                    (Values.put-get content_digest now later shard key value ttl shard' w written
                      alive))
        | inr (e, refused) ↦ absurd (ground (arith, sym (ap (λ r. r.1) there) ∙ done, refused))
      ]

  -- A write leaves what a read of every key of another shard returns.
  pub sharded_put-get_other :
      (other : List ℕ)
      → shard_for hash stub key ≢ shard_for hash stub other
      → (get hash content_digest later (put hash content_digest now stub key value ttl).0 other).1
        ≡ (get hash content_digest later stub other).1
  unfolding put get shard_for
  sharded_put-get_other other apart =
      elim (Option-cases (get_or (map some stub.shards) (shard_for hash stub key) none)) [
        | inl missing ↦ rw (in_shard-missing hash stub (shard_for hash stub key) write missing) refl
        | inr (shard, found) ↦
            let idx = shard_for hash stub key in
            rw (in_shard-found hash stub idx write shard found) (
              in_shard-same hash stub (record stub { shards = set stub.shards idx (write shard).0 })
                (shard_for hash stub other)
                (λ shard. FixedTierStub.get content_digest later shard other)
                (get_some-set_ne stub.shards idx (shard_for hash stub other) (write shard).0 apart))
      ]
