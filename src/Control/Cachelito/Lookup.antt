-- ===== src/Control/Cachelito/Lookup.antt =====
-- The plane as a finite map from addresses to entries: a call that locks the shard of one address
-- changes the map at that address alone.
use the_six.Base.{
  ℕ, zero, suc, ◌<◌, ◌≡◌, ap, ◌∙◌, inl, inr, true, Option, arith, ◌==◌, ==_iff, length, get_or,
  length-set, get_or-set_self, get_or-set_ne, if◌then◌else◌, Bool-cases, replicate,
  length-replicate, ltb,
}
use the_six.Integrity.{KeyAddress, same_address}
use the_six.Control.ControlEntry.{ControlEntry}
use the_six.Control.Shard.{Shard, new_shard}
use the_six.Control.Shard.Probe.{same_address_iff}
use the_six.Control.Shard.Lookup.{lookup, new_shard-IsWellFormed}
use the_six.Control.Shard.Lookup
use the_six.Control.Cachelito.{Cachelito, with_capacity, shard_for, shard_of, put_shard}

-- The entry that the plane holds for an address.
unfoldable pub find : Cachelito → KeyAddress → Option ControlEntry
find c a = lookup (shard_of c a) a

pub record IsWellFormed (c : Cachelito) : Type 0 where
  pub counted : length c.shards ≡ c.shard_count
  pub positive : 0 < c.shard_count
  pub probed : (i : ℕ) → Lookup.IsWellFormed (get_or c.shards i (new_shard 0))

pub with_capacity-IsWellFormed : (n k : ℕ) → IsWellFormed (with_capacity n k)
unfolding with_capacity
with_capacity-IsWellFormed n k = record {
  counted = length-replicate (if ltb n 1 then 1 else n) (new_shard k);
  positive = ground arith;
  probed = probed (if ltb n 1 then 1 else n);
}
  where
    probed : (m i : ℕ) → Lookup.IsWellFormed (get_or (replicate m (new_shard k)) i (new_shard 0))
    probed zero i = new_shard-IsWellFormed 0
    probed (suc m) zero = new_shard-IsWellFormed k
    probed (suc m) (suc i) = probed m i

module _ {c : Cachelito} (w : IsWellFormed c) (a : KeyAddress) where
  in_range : shard_for c a < length c.shards
  unfolding shard_for
  in_range = let p = w.positive in rw w.counted (omega arith)

  pub shard_of-IsWellFormed : Lookup.IsWellFormed (shard_of c a)
  unfolding shard_of
  shard_of-IsWellFormed = w.probed (shard_for c a)

  module _ (s : Shard) where
    -- The lookup that follows the write of one shard.
    pub find-put :
        (b : KeyAddress)
        → find (put_shard c a s) b
          ≡ (if shard_for c a == shard_for c b then lookup s b else find c b)
    unfolding find put_shard shard_of
    find-put b = elim (Bool-cases (shard_for c a == shard_for c b)) [
      | inl here ↦
          rw (here, ← (==_iff (shard_for c a) (shard_for c b)).0 here)
            (ap (λ t. lookup t b)
              (get_or-set_self c.shards (shard_for c a) s (new_shard 0) in_range))
      | inr other ↦ rw other (
          ap (λ t. lookup t b)
            (get_or-set_ne c.shards (shard_for c a) (shard_for c b) s (new_shard 0)
              (λ e. ground (arith, e, other))))
    ]

    pub put-IsWellFormed : Lookup.IsWellFormed s → IsWellFormed (put_shard c a s)
    unfolding put_shard
    put-IsWellFormed v = record {
      counted = length-set c.shards (shard_for c a) s ∙ w.counted;
      positive = w.positive;
      probed = λ i. elim (Bool-cases (shard_for c a == i)) [
        | inl here ↦
            rw
              (
                ← (==_iff (shard_for c a) i).0 here,
                get_or-set_self c.shards (shard_for c a) s (new_shard 0) in_range,
              )
              v
        | inr other ↦
            rw
              (get_or-set_ne c.shards (shard_for c a) i s (new_shard 0)
                (λ e. ground (arith, e, other)))
              (w.probed i)
      ];
    }

-- Equal addresses share a shard.
pub shard_for-same :
    (c : Cachelito) (a b : KeyAddress)
    → same_address a b ≡ true
    → (shard_for c a == shard_for c b) ≡ true
unfolding shard_for
shard_for-same c a b h = ground (arith, same_address_iff a b, h)

-- Addresses that share a shard read the same table.
pub same_shard :
    (c : Cachelito) (a b : KeyAddress)
    → (shard_for c a == shard_for c b) ≡ true
    → shard_of c b ≡ shard_of c a
unfolding shard_of
same_shard c a b h = rw ((==_iff (shard_for c a) (shard_for c b)).0 h)
