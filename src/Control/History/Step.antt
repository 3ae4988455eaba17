-- ===== src/Control/History/Step.antt =====
-- One call of the plane against the abstract map, and what every history keeps.
use the_six.Base.{
  ℕ, ◌≡◌, refl, Bool, true, Option, none, some, arith, Bool-cases, inl, inr, Option-cases, ◌≢◌, ◌∙◌,
  sym, zero, suc, get_or, replicate, get_or-replicate, List,
}
use the_six.Integrity.{KeyAddress, same_address, Placement}
use the_six.Control.ControlEntry.{ControlEntry, new_entry}
use the_six.Control.Handlers.Sound.{IsSound, new_entry-IsSound}
use the_six.Control.Shard.{new_shard}
use the_six.Control.Shard.Lookup.{lookup, find_entry-cases}
use the_six.Control.Shard.Probe.{same_address_iff}
use the_six.Control.Cachelito.{
  Cachelito, with_capacity, with_placement, address_for, shard_of, shard_for,
}
use the_six.Control.Cachelito.Lookup.{find, IsWellFormed, with_capacity-IsWellFormed}
use the_six.Control.Cachelito.Calls.{
  has_room, placement-at_entry, placement-at_created, at_entry-IsWellFormed, find-at_entry,
  at_created-IsWellFormed, find-at_created,
}
use the_six.Control.Maintenance.{sweep_expired}
use the_six.Control.Maintenance.Sweep.{find-sweep, sweep-IsWellFormed}
use the_six.Control.History.{
  Call, acquires, publishes, prepares, commits, aborts, fails, releases, invalidates,
  puts_generation, puts_tier, puts_state, bumps, releases_claim, reserves, aborts_intent, sweeps,
  effect, creates, target, step, apply, IsWellTyped, Reachable, start, after,
}
use the_six.Control.History.Effect.{effect-address, effect-IsSound}

-- Whether there is room for the entry of a call.
abbrev pub room_for : Cachelito → Option KeyAddress → Bool
room_for c none = true
room_for c (some a) = has_room c a

step-placement : (c : Cachelito) (call : Call) → (step c call).placement ≡ c.placement
unfolding step
step-placement c (acquires now key tier) = placement-at_created c _ _
step-placement c (publishes now key generation tier ttl) = placement-at_entry c _ _ _
step-placement c (prepares now key generation tier kind) = placement-at_created c _ _
step-placement c (commits now token ttl) = placement-at_entry c _ _ _
step-placement c (aborts token error proven_clean) = placement-at_entry c _ _ _
step-placement c (fails key error) = placement-at_entry c _ _ _
step-placement c (releases key) = placement-at_entry c _ _ _
step-placement c (invalidates key) = placement-at_entry c _ _ _
step-placement c (puts_generation key generation) = placement-at_created c _ _
step-placement c (puts_tier key tier) = placement-at_created c _ _
step-placement c (puts_state key value) = placement-at_created c _ _
step-placement c (bumps key) = placement-at_created c _ _
step-placement c (releases_claim address) = placement-at_entry c _ _ _
step-placement c (reserves address) = placement-at_entry c _ _ _
step-placement c (aborts_intent address error) = placement-at_entry c _ _ _
step-placement c (sweeps now) = unfold sweep_expired in refl

-- A key has one address for as long as the plane lives.
pub address_for-step :
    (c : Cachelito) (call : Call) (key : List ℕ) → address_for (step c call) key ≡ address_for c key
unfolding address_for
address_for-step c call key = rw (step-placement c call) refl

module _ (c : Cachelito) (w : IsWellFormed c) where
  pub step-IsWellFormed : (call : Call) → IsWellFormed (step c call)
  unfolding step effect
  step-IsWellFormed (acquires now key tier) =
      at_created-IsWellFormed w (address_for c key) _ (effect-address (acquires now key tier))
  step-IsWellFormed (publishes now key generation tier ttl) =
      at_entry-IsWellFormed w (address_for c key) _
        (effect-address (publishes now key generation tier ttl)) _
  step-IsWellFormed (prepares now key generation tier kind) =
      at_created-IsWellFormed w (address_for c key) _
        (effect-address (prepares now key generation tier kind))
  step-IsWellFormed (commits now token ttl) =
      at_entry-IsWellFormed w (token.address) _ (effect-address (commits now token ttl)) _
  step-IsWellFormed (aborts token error proven_clean) =
      at_entry-IsWellFormed w (token.address) _ (effect-address (aborts token error proven_clean)) _
  step-IsWellFormed (fails key error) =
      at_entry-IsWellFormed w (address_for c key) _ (effect-address (fails key error)) _
  step-IsWellFormed (releases key) =
      at_entry-IsWellFormed w (address_for c key) _ (effect-address (releases key)) _
  step-IsWellFormed (invalidates key) =
      at_entry-IsWellFormed w (address_for c key) _ (effect-address (invalidates key)) _
  step-IsWellFormed (puts_generation key generation) =
      at_created-IsWellFormed w (address_for c key) _
        (effect-address (puts_generation key generation))
  step-IsWellFormed (puts_tier key tier) =
      at_created-IsWellFormed w (address_for c key) _ (effect-address (puts_tier key tier))
  step-IsWellFormed (puts_state key value) =
      at_created-IsWellFormed w (address_for c key) _ (effect-address (puts_state key value))
  step-IsWellFormed (bumps key) =
      at_created-IsWellFormed w (address_for c key) _ (effect-address (bumps key))
  step-IsWellFormed (releases_claim address) =
      at_entry-IsWellFormed w (address) _ (effect-address (releases_claim address)) _
  step-IsWellFormed (reserves address) =
      at_entry-IsWellFormed w (address) _ (effect-address (reserves address)) _
  step-IsWellFormed (aborts_intent address error) =
      at_entry-IsWellFormed w (address) _ (effect-address (aborts_intent address error)) _
  step-IsWellFormed (sweeps now) = sweep-IsWellFormed now c w

  -- On a well-formed plane every call changes the map from addresses to entries as the effect of the
  -- call says: on the one entry of its address, which is created where the call creates entries and
  -- there is room; a sweep on every entry.
  pub find-step :
      (call : Call) (b : KeyAddress)
      → find (step c call) b ≡ apply call (target c call) (room_for c (target c call)) (find c) b
  unfolding step effect creates target apply
  find-step (acquires now key tier) b =
      find-at_created w (address_for c key) _ (effect-address (acquires now key tier)) b
  find-step (publishes now key generation tier ttl) b =
      find-at_entry w (address_for c key) _ (effect-address (publishes now key generation tier ttl))
        _ b
  find-step (prepares now key generation tier kind) b =
      find-at_created w (address_for c key) _
        (effect-address (prepares now key generation tier kind)) b
  find-step (commits now token ttl) b =
      find-at_entry w (token.address) _ (effect-address (commits now token ttl)) _ b
  find-step (aborts token error proven_clean) b =
      find-at_entry w (token.address) _ (effect-address (aborts token error proven_clean)) _ b
  find-step (fails key error) b =
      find-at_entry w (address_for c key) _ (effect-address (fails key error)) _ b
  find-step (releases key) b =
      find-at_entry w (address_for c key) _ (effect-address (releases key)) _ b
  find-step (invalidates key) b =
      find-at_entry w (address_for c key) _ (effect-address (invalidates key)) _ b
  find-step (puts_generation key generation) b =
      find-at_created w (address_for c key) _ (effect-address (puts_generation key generation)) b
  find-step (puts_tier key tier) b =
      find-at_created w (address_for c key) _ (effect-address (puts_tier key tier)) b
  find-step (puts_state key value) b =
      find-at_created w (address_for c key) _ (effect-address (puts_state key value)) b
  find-step (bumps key) b = find-at_created w (address_for c key) _ (effect-address (bumps key)) b
  find-step (releases_claim address) b =
      find-at_entry w (address) _ (effect-address (releases_claim address)) _ b
  find-step (reserves address) b =
      find-at_entry w (address) _ (effect-address (reserves address)) _ b
  find-step (aborts_intent address error) b =
      find-at_entry w (address) _ (effect-address (aborts_intent address error)) _ b
  find-step (sweeps now) b = find-sweep now c b

  -- A call about one address leaves the entry of every other address as it was.
  pub find-step_other :
      (call : Call) (a b : KeyAddress)
      → target c call ≡ some a
      → a ≢ b
      → find (step c call) b ≡ find c b
  unfolding apply
  find-step_other call a b h other =
      rw (find-step call b, h)
        (elim (Bool-cases (same_address a b)) [
          | inl same ↦ absurd (other ((same_address_iff a b).0 same))
          | inr differ ↦ ground arith
        ])

-- What holds of every plane that a history reaches: its tables probe correctly, and every entry is
-- the one of its address and sound.
pub record IsConsistent (c : Cachelito) : Type 0 where
  pub shaped : IsWellFormed c
  pub entry : (a : KeyAddress) (e : ControlEntry) → find c a ≡ some e → (e.address ≡ a) × IsSound e

module _ (call : Call) (t : IsWellTyped call) where
  kept :
      (b : KeyAddress) (e : ControlEntry)
      → (e.address ≡ b) × IsSound e
      → ((effect call e).address ≡ b) × IsSound (effect call e)
  kept b e v = (effect-address call e ∙ v.0, effect-IsSound call e t v.1)

  kept_new :
      (b : KeyAddress)
      → ((effect call (new_entry b)).address ≡ b) × IsSound (effect call (new_entry b))
  unfolding new_entry
  kept_new b = kept b (new_entry b) (refl, new_entry-IsSound b)

  apply-entry :
      (a : Option KeyAddress) (room : Bool) (entries : KeyAddress → Option ControlEntry)
      → ((b : KeyAddress) (e : ControlEntry) → entries b ≡ some e → (e.address ≡ b) × IsSound e)
      → (b : KeyAddress) (e : ControlEntry) → apply call a room entries b ≡ some e
      → (e.address ≡ b) × IsSound e
  unfolding apply
  apply-entry none room entries v b e h = elim (Option-cases (entries b)) [
    | inl missing ↦ absurd (ground arith)
    | inr (x, found) ↦ ground (arith, kept b x (v b x found))
  ]
  apply-entry (some a) room entries v b e h = elim (Option-cases (entries a)) [
    | inl missing ↦ ground (arith, kept_new b, same_address_iff a b, v b e)
    | inr (x, found) ↦ ground (arith, kept a x (v a x found), same_address_iff a b, v b e)
  ]

lookup-new_shard : (n : ℕ) (a : KeyAddress) → lookup (new_shard n) a ≡ none
unfolding new_shard
lookup-new_shard n a = elim (find_entry-cases (new_shard n) a) [
  | inl (missing, found, read) ↦ read
  | inr (i, e, at, full, same, found, read) ↦
      absurd (ground (arith, full, get_or-replicate {A = Option ControlEntry} n i none))
]

lookup-replicate :
    (m n i : ℕ) (a : KeyAddress)
    → lookup (get_or (replicate m (new_shard n)) i (new_shard 0)) a ≡ none
lookup-replicate zero n i a = lookup-new_shard 0 a
lookup-replicate (suc m) n zero a = lookup-new_shard n a
lookup-replicate (suc m) n (suc i) a = lookup-replicate m n i a

empty-find :
    (placement : Placement) (n k : ℕ) (a : KeyAddress)
    → find (with_placement placement (with_capacity n k)) a ≡ none
unfolding find shard_of with_placement with_capacity
empty-find placement n k a =
    lookup-replicate _ k (shard_for (with_placement placement (with_capacity n k)) a) a

with_placement-IsWellFormed :
    (placement : Placement) (c : Cachelito)
    → IsWellFormed c
    → IsWellFormed (with_placement placement c)
unfolding with_placement
with_placement-IsWellFormed placement c w = record {
  counted = w.counted;
  positive = w.positive;
  probed = w.probed;
}

-- A well-typed call keeps it.
pub step-IsConsistent :
    (c : Cachelito) (call : Call) → IsWellTyped call → IsConsistent c → IsConsistent (step c call)
step-IsConsistent c call t v = record {
  shaped = step-IsWellFormed c v.shaped call;
  entry = λ b e h.
      apply-entry call t (target c call) (room_for c (target c call)) (find c) v.entry b e
        (sym (find-step c v.shaped call b) ∙ h);
}

pub Reachable-IsConsistent : (c : Cachelito) → Reachable c → IsConsistent c
Reachable-IsConsistent _ (start placement n k) = record {
  shaped =
      with_placement-IsWellFormed placement (with_capacity n k) (with_capacity-IsWellFormed n k);
  entry = λ a e h. absurd (ground (arith, empty-find placement n k a));
}
Reachable-IsConsistent _ (after c call r t) =
    step-IsConsistent c call t (Reachable-IsConsistent c r)
