-- ===== src/Tier/ShardedStub.antt =====
-- `ShardedTierStub` of `src/tier/sharded_stub.rs`: the storage of a rung over several shards, and the
-- rungs L0 to L5 in `src/tier/l0.rs` to `l5.rs` that forward to it. A poisoned lock is not modelled.
pub mod Routing
pub mod Shards
use the_six.Base.{
  ℕ, zero, suc, ◌+◌, ◌*◌, ◌-◌, ◌%◌, Bool, true, false, Option, none, some, List, [], ◌∷◌, ◌==◌, ltb,
  leb, length, get_or, set, replicate, map, if◌then◌else◌,
}
use the_six.Base.Result.{Result, ok, err, configuration_error}
use the_six.Integrity.{KeyAddress}
use the_six.Tier.Interface.{BackendKind, CacheTier}
use the_six.Tier.FixedTierStub
use the_six.Tier.FixedTierStub.{FixedTierStub}

pub record ShardedTierStub (V : Type 0) : Type 0 where
  pub shards : List (FixedTierStub V)
  pub mask : ℕ

-- `usize::next_power_of_two`, by the doublings that are left.
abbrev pub double_to : ℕ → ℕ → ℕ → ℕ
double_to zero p n = p
double_to (suc left) p n = if leb n p then p else double_to left (2 * p) n

abbrev pub next_power_of_two : ℕ → ℕ
next_power_of_two n = double_to n 1 n

module _ {V : Type 0} where
  unfoldable pub with_shards : ℕ → ℕ → Result (ShardedTierStub V)
  unfolding FixedTierStub.with_capacity
  with_shards shards capacity_per_shard =
      let n = next_power_of_two (if ltb shards 1 then 1 else shards) in
      elim (FixedTierStub.with_capacity {V = V} capacity_per_shard) [
        | err e ↦ err e
        | ok shard ↦ ok (record { shards = replicate n shard; mask = n - 1 })
      ]

  -- The hash of a key's bytes is a parameter. The mask is a power of two less one, so `h & mask` is the
  -- remainder.
  module _ (hash : List ℕ → ℕ) where
    unfoldable pub shard_for : ShardedTierStub V → List ℕ → ℕ
    shard_for stub key = hash key % suc stub.mask

    -- What an operation does under the guard of the shard of a key.
    unfoldable pub in_shard :
        {A : Type 0}
        → ShardedTierStub V
        → ℕ
        → (FixedTierStub V → FixedTierStub V × Result A)
        → ShardedTierStub V × Result A
    in_shard stub idx access = elim (get_or (map some stub.shards) idx none) [
      | none ↦ (stub, err configuration_error)
      | some shard ↦
          (record stub { shards = set stub.shards idx (access shard).0 }, (access shard).1)
    ]

    -- A write that is refused leaves its shard as it was.
    abbrev pub stored :
        FixedTierStub V → Result (FixedTierStub V) → FixedTierStub V × Result (Unit {0})
    stored shard (ok written) = (written, ok tt)
    stored shard (err e) = (shard, err e)

    module _ (content_digest : V → ℕ) where
      unfoldable pub get : ℕ → ShardedTierStub V → List ℕ → ShardedTierStub V × Result (Option V)
      unfolding in_shard shard_for FixedTierStub.get
      get now stub key =
          in_shard stub (shard_for stub key)
            (λ shard. FixedTierStub.get content_digest now shard key)

      unfoldable pub put :
          ℕ → ShardedTierStub V → List ℕ → V → Option ℕ → ShardedTierStub V × Result (Unit {0})
      unfolding in_shard shard_for FixedTierStub.put
      put now stub key value ttl =
          in_shard stub (shard_for stub key)
            (λ shard. stored shard (FixedTierStub.put content_digest now shard key value ttl))

    unfoldable pub remove : ℕ → ShardedTierStub V → List ℕ → ShardedTierStub V × Result (Unit {0})
    unfolding in_shard shard_for FixedTierStub.remove
    remove now stub key =
        in_shard stub (shard_for stub key) (λ shard. (FixedTierStub.remove now shard key, ok tt))

    unfoldable pub contains_key : ℕ → ShardedTierStub V → List ℕ → ShardedTierStub V × Result Bool
    unfolding in_shard shard_for FixedTierStub.contains_key
    contains_key now stub key =
        in_shard stub (shard_for stub key)
          (λ shard. (shard, ok (FixedTierStub.contains_key now shard key)))

  -- The loop of `eviction_candidate`, by the shards that are left, from an index on.
  unfoldable pub scan_shards :
      ℕ → ℕ → List (FixedTierStub V) → ℕ → List (FixedTierStub V) × Option KeyAddress
  unfolding FixedTierStub.eviction_candidate
  scan_shards now zero shards idx = (shards, none)
  scan_shards now (suc left) shards idx = elim (get_or (map some shards) idx none) [
    | none ↦ (shards, none)
    | some shard ↦
        let asked = FixedTierStub.eviction_candidate now shard in
        let shards' = set shards idx asked.0 in
        let rest = scan_shards now left shards' ((idx + 1) % length shards) in
        elim asked.1 [ none ↦ rest | some address ↦ (shards', some address) ]
  ]

  -- `start` is what `next_shard` reads of the counter, which all stubs of the process share.
  unfoldable pub eviction_candidate :
      ℕ → ℕ → ShardedTierStub V → ShardedTierStub V × Option KeyAddress
  unfolding scan_shards
  eviction_candidate start now stub =
      if length stub.shards == 0
      then (stub, none)
      else (let found =
            scan_shards now (length stub.shards) stub.shards (start % length stub.shards) in
          (record stub { shards = found.0 }, found.1))

  -- The loop of `remove_if_address`.
  unfoldable pub remove_from_first :
      KeyAddress → List (FixedTierStub V) → List (FixedTierStub V) × Bool
  unfolding FixedTierStub.remove_if_address
  remove_from_first address [] = ([], false)
  remove_from_first address (shard ∷ shards) =
      let here = FixedTierStub.remove_if_address shard address in
      let rest = remove_from_first address shards in
      if here.1 then (here.0 ∷ shards, true) else (here.0 ∷ rest.0, rest.1)

  unfoldable pub remove_if_address :
      ShardedTierStub V → KeyAddress → ShardedTierStub V × Result Bool
  unfolding remove_from_first
  remove_if_address stub address =
      let r = remove_from_first address stub.shards in (record stub { shards = r.0 }, ok r.1)

  -- The impls of `CacheTier` for the rungs, which forward to the sharded storage.
  unfoldable pub rung_over :
      (List ℕ → ℕ) → (V → ℕ) → BackendKind → ℕ → CacheTier V (ShardedTierStub V)
  unfolding get put remove contains_key eviction_candidate remove_if_address
  rung_over hash content_digest kind start = record {
    backend = λ stub. kind;
    get = λ stub now key. get hash content_digest now stub key;
    set = λ stub now key value ttl. put hash content_digest now stub key value ttl;
    remove = λ stub now key. remove hash now stub key;
    contains = λ stub now key. contains_key hash now stub key;
    eviction_candidate = λ stub now. eviction_candidate start now stub;
    remove_if_address = λ stub address. remove_if_address stub address;
  }
