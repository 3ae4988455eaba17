-- ===== src/Tier/FixedTierStub/Scan.antt =====
-- The scans of `src/tier/fixed_tier_stub.rs`: a lookup finds what a write has stored.
use the_six.Base.{
  ℕ, zero, suc, ◌+◌, ◌%◌, ◌<◌, ◌≡◌, true, false, Option, none, some, ◌==◌, ==_iff, arith, length,
  set, length-set, get_or-set_self, get_or-set_ne, if◌then◌else◌, Bool-cases, Option-cases, inl,
  inr,
}
use the_six.Tier.FixedTierStub.{Slot, Slots, slot_at, is_expired, holds, scan_slot, scan_empty}

pub slot_at-set :
    (xs : Slots) (i j : ℕ) (v : Option Slot)
    → i < length xs
    → slot_at (set xs i v) j ≡ (if i == j then v else slot_at xs j)
slot_at-set xs i j v h = elim (Bool-cases (i == j)) [
  | inl e ↦ rw (e, ← (==_iff i j).0 e) (get_or-set_self xs i v none h)
  | inr e ↦ rw e (get_or-set_ne xs i j v none (λ p. ground (arith, p, e)))
]

holds_self : (s : Slot) → holds s.placement s.fingerprint s ≡ true
unfolding holds
holds_self s = ground arith

module _ (xs : Slots) (now : ℕ) (placement fingerprint : ℕ) where
  pub scan_empty-lt :
      (left idx i : ℕ)
      → idx < length xs
      → scan_empty now xs placement fingerprint left idx ≡ some i
      → i < length xs
  unfolding scan_empty
  scan_empty-lt zero idx i r h = cc
  scan_empty-lt (suc left) idx i r h =
      let next : (idx + 1) % length xs < length xs = omega arith in
      elim (Option-cases (slot_at xs idx)) [
        | inl empty ↦ ground arith
        | inr (s, full) ↦
            let rest = scan_empty-lt left ((idx + 1) % length xs) i next in
            elim (Bool-cases (holds placement fingerprint s)) [
              | inl own ↦ ground arith
              | inr other ↦ elim (Bool-cases (is_expired now s)) [
                | inl dead ↦ ground arith
                | inr live ↦ rest (ground arith)
              ]
            ]
      ]

-- The slot that a write chose is the one that a later lookup finds, while the entry lives.
pub scan_slot-stored :
    (xs : Slots) (now later : ℕ) (s : Slot) (left idx i : ℕ)
    → i < length xs
    → is_expired later s ≡ false
    → scan_empty now xs s.placement s.fingerprint left idx ≡ some i
    → scan_slot later (set xs i (some s)) s.placement s.fingerprint left idx ≡ some i
unfolding scan_empty scan_slot
scan_slot-stored xs now later s zero idx i r live h = cc
scan_slot-stored xs now later s (suc left) idx i r live h =
    let len = length-set xs i (some s) in
    let read = slot_at-set xs i idx (some s) r in
    let own = holds_self s in
    let rest = scan_slot-stored xs now later s left ((idx + 1) % length xs) i r live in
    elim (Bool-cases (i == idx)) [
      | inl here ↦ ground (arith, len, read, own, live)
      | inr away ↦ elim (Option-cases (slot_at xs idx)) [
        | inl empty ↦ absurd (ground arith)
        | inr (x, full) ↦ elim (Bool-cases (holds s.placement s.fingerprint x)) [
          | inl mine ↦ absurd (ground arith)
          | inr other ↦ elim (Bool-cases (is_expired now x)) [
            | inl dead ↦ absurd (ground arith)
            | inr alive ↦ ground (arith, len, read, rest)
          ]
        ]
      ]
    ]
