-- ===== src/Control/Cachelito/Calls.antt =====
-- The two ways in which a call of `Cachelito` reaches its entry, on the plane as a map.
use the_six.Base.{
  ◌≡◌, ◌∙◌, inl, inr, Option, arith, if◌then◌else◌, Bool, ◌||◌, is_some, none, some, ◌&&◌, refl,
  Bool-cases, true,
}
use mathlib.Core.Option
use the_six.Integrity.{KeyAddress, same_address}
use the_six.Control.ControlEntry.{ControlEntry, new_entry}
use the_six.Control.Shard.{find_empty, write_entry, find_or_create_entry}
use the_six.Control.Shard.Probe.{same_address_iff}
use the_six.Control.Shard.Lookup.{find_entry-cases, write_entry-IsWellFormed, lookup-write}
use the_six.Control.Cachelito.{Cachelito, put_shard, shard_of, at_entry, at_created}
use the_six.Base.Result.{Result, err, configuration_error}
use the_six.Control.Shard.Create.{
  Creation, existing, created, refused, find_or_create_entry-Creation,
}
use the_six.Control.Cachelito.Lookup.{
  find, IsWellFormed, shard_of-IsWellFormed, find-put, put-IsWellFormed, shard_for-same, same_shard,
}

-- A handler that leaves the address of its entry alone.
abbrev pub KeepsAddress : {R : Type 0} → (ControlEntry → ControlEntry × Result R) → Type 0
KeepsAddress handler = (e : ControlEntry) → (handler e).0.address ≡ e.address

abbrev pub or_new : KeyAddress → Option ControlEntry → ControlEntry
or_new a o = Option.get_or o (new_entry a)

-- Whether a call that creates entries finds or creates the one of `a`.
unfoldable pub has_room : Cachelito → KeyAddress → Bool
has_room c a = is_some (find c a) || is_some (find_empty (shard_of c a) a)

-- No call changes how keys are placed.
module _ {R : Type 0} (c : Cachelito) (a : KeyAddress)
    (handler : ControlEntry → ControlEntry × Result R) where
  pub placement-at_entry :
      (missing : Result R) → (at_entry c a missing handler).0.placement ≡ c.placement
  unfolding at_entry put_shard
  placement-at_entry missing = ground arith

  pub placement-at_created : (at_created c a handler).0.placement ≡ c.placement
  unfolding at_created put_shard
  placement-at_created = ground arith

module _ {R : Type 0} {c : Cachelito} (w : IsWellFormed c) (a : KeyAddress)
    (handler : ControlEntry → ControlEntry × Result R) (keeps : KeepsAddress handler) where
  module _ (missing : Result R) where
    pub at_entry-IsWellFormed : IsWellFormed (at_entry c a missing handler).0
    unfolding at_entry
    at_entry-IsWellFormed = elim (find_entry-cases (shard_of c a) a) [
      | inl (at, found, read) ↦ rw (found, at_entry) w
      | inr (i, e, at, full, same, found, read) ↦
          rw (found, at_entry)
            (put-IsWellFormed w a _ (
              write_entry-IsWellFormed (shard_of c a) i e (handler e).0 (shard_of-IsWellFormed w a)
                full (keeps e)))
    ]

    pub find-at_entry :
        (b : KeyAddress)
        → find (at_entry c a missing handler).0 b
          ≡ (if same_address a b then Option.map (λ e. (handler e).0) (find c a) else find c b)
    unfolding at_entry find
    find-at_entry b = elim (find_entry-cases (shard_of c a) a) [
      | inl (at, found, read) ↦ rw (found, at_entry) (ground (arith, same_address_iff a b, read))
      | inr (i, e, at, full, same, found, read) ↦
          rw (found, at_entry)
            (ground (
              arith,
              find-put w a (write_entry (shard_of c a) i (handler e).0) b,
              lookup-write (shard_of c a) a b i e (handler e).0 at full same (keeps e ∙ same),
              shard_for-same c a b,
              same_shard c a b,
            ))
    ]

    pub result-at_entry :
        (at_entry c a missing handler).1
        ≡ elim (find c a) [ none ↦ missing | some e ↦ (handler e).1 ]
    unfolding at_entry find
    result-at_entry = ground (arith, find_entry-cases (shard_of c a) a)

  -- On an entry that is there: what the call returns, and the entry that it leaves.
  pub at_entry-Outcome :
      (missing : Result R) (e : ControlEntry)
      → find c a ≡ some e
      → ((at_entry c a missing handler).1 ≡ (handler e).1)
        × (find (at_entry c a missing handler).0 a ≡ some (handler e).0)
  at_entry-Outcome missing e found = (
    result-at_entry missing ∙ ground arith,
    find-at_entry missing a ∙ ground (arith, same_address_iff a a),
  )

  -- A handler that leaves the entry as it was leaves the whole map so.
  pub find-at_entry_still :
      (missing : Result R) (e : ControlEntry)
      → find c a ≡ some e
      → (handler e).0 ≡ e
      → (b : KeyAddress) → find (at_entry c a missing handler).0 b ≡ find c b
  find-at_entry_still missing e found still b =
      rw (find-at_entry missing b) (elim (Bool-cases (same_address a b)) [
        | inl same ↦ let at = (same_address_iff a b).0 same in ground arith
        | inr other ↦ ground arith
      ])

  created-cases : Creation (shard_of c a) a (find_or_create_entry (shard_of c a) a)
  created-cases = find_or_create_entry-Creation (shard_of c a) a (shard_of-IsWellFormed w a)

  pub at_created-IsWellFormed : IsWellFormed (at_created c a handler).0
  unfolding at_created
  at_created-IsWellFormed = elim created-cases [
    | existing i e at full same read found ↦
        rw (found, at_created)
          (put-IsWellFormed w a _ (
            write_entry-IsWellFormed (shard_of c a) i e (handler e).0 (shard_of-IsWellFormed w a)
              full (keeps e)))
    | created s i missing before at full v reads found ↦
        rw (found, at_created)
          (put-IsWellFormed w a _ (
            write_entry-IsWellFormed s i (new_entry a) (handler (new_entry a)).0 v full
              (keeps (new_entry a))))
    | refused missing none_free read found ↦ rw (found, at_created) w
  ]

  pub find-at_created :
      (b : KeyAddress)
      → find (at_created c a handler).0 b ≡ (
          if has_room c a && same_address a b
          then some (handler (or_new a (find c a))).0
          else find c b)
  unfolding at_created find has_room new_entry
  find-at_created b = elim created-cases [
    | existing i e at full same read found ↦
        rw (found, at_created)
          (ground (
            arith,
            find-put w a (write_entry (shard_of c a) i (handler e).0) b,
            lookup-write (shard_of c a) a b i e (handler e).0 at full same (keeps e ∙ same),
            shard_for-same c a b,
            same_shard c a b,
          ))
    | created s i missing before at full v reads found ↦
        rw (found, at_created)
          (ground (
            arith,
            find-put w a (write_entry s i (handler (new_entry a)).0) b,
            lookup-write s a b i (new_entry a) (handler (new_entry a)).0 at full refl
                (keeps (new_entry a)),
            reads b,
            shard_for-same c a b,
            same_shard c a b,
          ))
    | refused missing none_free read found ↦
        rw (found, at_created) (ground (arith, none_free, read))
  ]

  pub result-at_created :
      (at_created c a handler).1
      ≡ (if has_room c a then (handler (or_new a (find c a))).1 else err configuration_error)
  unfolding at_created find has_room
  result-at_created = elim created-cases [
    | existing i e at full same read found ↦ rw (found, at_created) (ground arith)
    | created s i missing before at full v reads found ↦ rw (found, at_created) (ground arith)
    | refused missing none_free read found ↦
        rw (found, at_created) (ground (arith, none_free, read))
  ]

  -- Where there is room, the call returns what its handler does of the entry, or of a new one.
  pub at_created-Outcome :
      has_room c a ≡ true
      → ((at_created c a handler).1 ≡ (handler (or_new a (find c a))).1)
        × (find (at_created c a handler).0 a ≡ some (handler (or_new a (find c a))).0)
  at_created-Outcome room =
      (result-at_created ∙ ground arith, find-at_created a ∙ ground (arith, same_address_iff a a))
