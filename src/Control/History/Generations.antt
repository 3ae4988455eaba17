-- ===== src/Control/History/Generations.antt =====
-- Generations along a history: they do not go back, so what was issued for a generation that is
-- passed is refused from then on.
use the_six.Base.{
  ℕ, ◌+◌, ◌≤◌, ◌<◌, ◌≡◌, refl, ◌⊎◌, inl, inr, arith, u64_mod, Option, none, some, List, [], ◌∷◌,
  length, ◌∙◌, Bool-cases, Bool, suc,
}
use the_six.Base.Result.{err, stale_generation}
use the_six.Tier.{TierId}
use the_six.Entry.{CommitToken}
use the_six.Integrity.{KeyAddress, same_address}
use the_six.Control.ControlEntry.{ControlEntry, next_generation}
use the_six.Control.Shard.Probe.{same_address_iff}
use the_six.Control.Handlers.{commit_entry, publish_entry}
use the_six.Control.Cachelito.{Cachelito, address_for, commit, publish}
use the_six.Control.Cachelito.Lookup.{find, IsWellFormed}
use the_six.Control.Cachelito.Outcomes.{
  commit-Outcome, commit_still, publish-Outcome, publish_still,
}
use the_six.Control.Cachelito.Calls.{has_room}
use the_six.Control.History.{
  Call, releases, invalidates, bumps, effect, target, step, run, apply, creates,
}
use the_six.Control.History.Effect.{effect-generation, AssignsNone}
use the_six.Control.History.Step.{step-IsWellFormed, find-step, room_for}

-- No call of a history assigns a generation.
unfoldable pub AllAssignNone : List Call → Type 0
unfolding AssignsNone
AllAssignNone [] = Unit
AllAssignNone (call ∷ calls) = AssignsNone call × AllAssignNone calls

-- The entry of an address, at a generation of at least `g`, with room for `n` more.
abbrev pub Past : Cachelito → KeyAddress → ℕ → ℕ → Type 0
Past c b g n =
    (e : ControlEntry) × (find c b ≡ some e) × (g ≤ e.generation) × (e.generation + n < u64_mod)

-- An entry that exists is the subject of the call, or is left as it was.
apply-cases :
    (call : Call) (a : Option KeyAddress) (room : Bool) (entries : KeyAddress → Option ControlEntry)
    (b : KeyAddress) (e : ControlEntry)
    → entries b ≡ some e
    → (apply call a room entries b ≡ some (effect call e)) ⊎ (apply call a room entries b ≡ some e)
unfolding apply
apply-cases call none room entries b e found = inl (ground arith)
apply-cases call (some a) room entries b e found = elim (Bool-cases (same_address a b)) [
  | inl same ↦ ground (arith, (same_address_iff a b).0 same)
  | inr other ↦ inr (ground arith)
]

step-Past :
    (c : Cachelito) (call : Call) (b : KeyAddress) (g n : ℕ)
    → IsWellFormed c
    → AssignsNone call
    → Past c b g (suc n)
    → Past (step c call) b g n
unfolding next_generation
step-Past c call b g n w h (e, found, le, fits) =
    let moved = effect-generation call e h in
    rw (find-step c w call b)
      (elim (apply-cases call (target c call) (room_for c (target c call)) (find c) b e found) [
        | inl now ↦ (effect call e, now, ground arith, ground arith)
        | inr now ↦ (e, now, le, ground arith)
      ])

run-Past :
    (calls : List Call) (c : Cachelito) (b : KeyAddress) (g : ℕ)
    → IsWellFormed c
    → AllAssignNone calls
    → Past c b g (length calls)
    → IsWellFormed (run c calls) × Past (run c calls) b g 0
unfolding AllAssignNone run
run-Past [] c b g w h p = (w, p)
run-Past (call ∷ calls) c b g w h p =
    run-Past calls (step c call) b g (step-IsWellFormed c w call) h.1
      (step-Past c call b g (length calls) w h.0 p)

module _ (c : Cachelito) (now : ℕ) (w : IsWellFormed c) where
  commit-Past :
      (token : CommitToken) (ttl : Option ℕ)
      → Past c token.address (suc token.generation) 0
      → ((commit c now token ttl).1 ≡ err stale_generation)
        × ((b : KeyAddress) → find (commit c now token ttl).0 b ≡ find c b)
  unfolding commit_entry
  commit-Past token ttl (e, found, le, fits) = (
    (commit-Outcome w now token ttl e found).0 ∙ ground arith,
    commit_still w now token ttl e found (ground arith),
  )

  publish-Past :
      (key : List ℕ) (g : ℕ) (tier : TierId) (ttl : Option ℕ)
      → Past c (address_for c key) (suc g) 0
      → ((publish c now key g tier ttl).1 ≡ err stale_generation)
        × ((b : KeyAddress) → find (publish c now key g tier ttl).0 b ≡ find c b)
  unfolding publish_entry
  publish-Past key g tier ttl (e, found, le, fits) = (
    (publish-Outcome w now key g tier ttl e found).0 ∙ ground arith,
    publish_still w now key g tier ttl e found (ground arith),
  )

-- The calls that take an entry away from whoever holds its generation.
unfoldable pub Supersedes : Call → Type 0
Supersedes (releases key) = Unit
Supersedes (invalidates key) = Unit
Supersedes (bumps key) = Unit
Supersedes _ = ⊥

module _ (c : Cachelito) (call : Call) (calls : List Call) (a : KeyAddress) (e : ControlEntry)
    (w : IsWellFormed c) (about : target c call ≡ some a) (found : find c a ≡ some e)
    (supersedes : Supersedes call) (free : AllAssignNone calls)
    (fits : e.generation + suc (length calls) < u64_mod) where
  effect-Supersedes : (effect call e).generation ≡ suc e.generation
  unfolding Supersedes effect next_generation
  effect-Supersedes = ground arith

  superseded : find (step c call) a ≡ some (effect call e)
  unfolding apply has_room
  superseded =
      let here = (same_address_iff a a).1 refl in
      rw (find-step c w call a, about, here, found)
        (elim (Bool-cases (creates call)) [
          | inl creating ↦ rw creating refl
          | inr finding ↦ rw finding refl
        ])

  passed : IsWellFormed (run c (call ∷ calls)) × Past (run c (call ∷ calls)) a (suc e.generation) 0
  unfolding run
  passed =
      let up = effect-Supersedes in
      run-Past calls (step c call) a (suc e.generation) (step-IsWellFormed c w call) free
        (effect call e, superseded, ground arith, ground arith)

  -- Once an entry is invalidated, released or bumped, a commit with a token of the generation that
  -- it had, or of an earlier one, is refused and changes no entry, whatever calls came in between,
  -- as long as none of them assigns a generation and the counter does not wrap.
  pub commit_superseded :
      (now : ℕ) (token : CommitToken) (ttl : Option ℕ)
      → token.address ≡ a
      → token.generation ≤ e.generation
      → let c' = run c (call ∷ calls) in
        ((commit c' now token ttl).1 ≡ err stale_generation)
        × ((b : KeyAddress) → find (commit c' now token ttl).0 b ≡ find c' b)
  commit_superseded now token ttl at le =
      let (e', found', above, bound) = passed.1 in
      commit-Past (run c (call ∷ calls)) now passed.0 token ttl
        (e', rw at found', omega arith, bound)

  -- Likewise a publication with such a generation.
  pub publish_superseded :
      (now : ℕ) (key : List ℕ) (g : ℕ) (tier : TierId) (ttl : Option ℕ)
      → let c' = run c (call ∷ calls) in
        address_for c' key ≡ a
        → g ≤ e.generation
        → ((publish c' now key g tier ttl).1 ≡ err stale_generation)
          × ((b : KeyAddress) → find (publish c' now key g tier ttl).0 b ≡ find c' b)
  publish_superseded now key g tier ttl at le =
      let (e', found', above, bound) = passed.1 in
      publish-Past (run c (call ∷ calls)) now passed.0 key g tier ttl
        (e', rw at found', omega arith, bound)
