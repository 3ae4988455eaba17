-- ===== src/Telemetry/Ring.antt =====
-- `RingTelemetry` of `src/telemetry.rs`: the last records that a sink was given. Its lock is poisoned
-- only by a panic under it, and nothing under it panics.
use the_six.Base.{
  ℕ, zero, suc, ◌+◌, ◌-◌, ◌≤◌, ◌<◌, ◌≡◌, ◌≢◌, refl, ap, List, [], ◌∷◌, ◌++◌, ◌==◌, ltb, length,
  drop, filter, if◌then◌else◌, arith, Bool-cases, inl, inr, sym,
}
use mathlib.Core.List.{append-nil}
use the_six.Telemetry.{OperationRecord, identity_of, same_identity}

pub record RingTelemetry : Type 0 where
  pub buf : List OperationRecord
  pub cap : ℕ

-- `RingTelemetry::new`, with its `cap.max(1)`.
unfoldable pub new_ring : ℕ → RingTelemetry
new_ring n = record { buf = []; cap = if ltb n 1 then 1 else n }

-- `pop_front`.
abbrev tail : {A : Type 0} → List A → List A
tail [] = []
tail (x ∷ xs) = xs

-- `TelemetrySink::record`.
unfoldable pub keep : RingTelemetry → OperationRecord → RingTelemetry
keep ring r = record ring {
  buf = (if length ring.buf == ring.cap then tail ring.buf else ring.buf) ++ r ∷ [];
}

unfoldable pub records_for : RingTelemetry → List ℕ → List OperationRecord
unfolding identity_of same_identity
records_for ring key = filter (λ r. same_identity r.key (identity_of key)) ring.buf

-- A sink is given the records of a history, in order.
unfoldable pub keep_all : RingTelemetry → List OperationRecord → RingTelemetry
unfolding keep
keep_all ring [] = ring
keep_all ring (r ∷ rs) = keep_all (keep ring r) rs

-- The last `n` elements of a list.
abbrev pub last_of : {A : Type 0} → ℕ → List A → List A
last_of n xs = drop (length xs - n) xs

module _ {A : Type 0} where
  length-snoc : (xs : List A) (x : A) → length (xs ++ x ∷ []) ≡ length xs + 1
  length-snoc [] x = omega arith
  length-snoc (y ∷ xs) x = omega (arith, length-snoc xs x)

  drop-snoc :
      (n : ℕ) (xs : List A) (x : A) → n ≤ length xs → drop n (xs ++ x ∷ []) ≡ drop n xs ++ x ∷ []
  drop-snoc zero xs x h = refl
  drop-snoc (suc n) [] x h = absurd (omega arith)
  drop-snoc (suc n) (y ∷ xs) x h = drop-snoc n xs x (omega arith)

  length-drop : (n : ℕ) (xs : List A) → length (drop n xs) ≡ length xs - n
  length-drop zero xs = omega arith
  length-drop (suc n) [] = omega arith
  length-drop (suc n) (x ∷ xs) = omega (arith, length-drop n xs)

  tail-drop : (n : ℕ) (xs : List A) → tail (drop n xs) ≡ drop (suc n) xs
  tail-drop zero [] = refl
  tail-drop zero (x ∷ xs) = refl
  tail-drop (suc n) [] = refl
  tail-drop (suc n) (x ∷ xs) = tail-drop n xs

  append_regroup : (xs ys : List A) (x : A) → (xs ++ x ∷ []) ++ ys ≡ xs ++ x ∷ ys
  append_regroup [] ys x = refl
  append_regroup (y ∷ xs) ys x = ap (λ zs. y ∷ zs) (append_regroup xs ys x)

  -- The last elements once one more is there, where the window was full and where it was not.
  last_of-snoc_full :
      (n : ℕ) (xs : List A) (x : A)
      → 0 < n
      → length (last_of n xs) ≡ n
      → last_of n (xs ++ x ∷ []) ≡ tail (last_of n xs) ++ x ∷ []
  last_of-snoc_full n xs x p h =
      let size = length-drop (length xs - n) xs in
      let skip : length (xs ++ x ∷ []) - n ≡ suc (length xs - n) =
        omega (arith, length-snoc xs x, size) in
      rw (skip, tail-drop (length xs - n) xs)
        (drop-snoc (suc (length xs - n)) xs x (omega (arith, size)))

  last_of-snoc_free :
      (n : ℕ) (xs : List A) (x : A)
      → length xs < n
      → last_of n (xs ++ x ∷ []) ≡ last_of n xs ++ x ∷ []
  last_of-snoc_free n xs x h =
      let skip : length (xs ++ x ∷ []) - n ≡ 0 = omega (arith, length-snoc xs x) in
      let none_skipped : length xs - n ≡ 0 = omega arith in rw (skip, none_skipped) refl

  last_of_short : (n : ℕ) (xs : List A) → length (last_of n xs) ≢ n → length xs < n
  last_of_short n xs h = ground (arith, length-drop (length xs - n) xs)

-- One record keeps the ring at the last ones of its history.
keep-last_of :
    (ring : RingTelemetry) (rs : List OperationRecord) (r : OperationRecord)
    → 0 < ring.cap
    → ring.buf ≡ last_of ring.cap rs
    → (keep ring r).buf ≡ last_of ring.cap (rs ++ r ∷ [])
unfolding keep
keep-last_of ring rs r p h = elim (Bool-cases (length ring.buf == ring.cap)) [
  | inl full ↦
      let size : length (last_of ring.cap rs) ≡ ring.cap = rw (← h) (ground (arith, full)) in
      rw (full, h) (sym (last_of-snoc_full ring.cap rs r p size))
  | inr free ↦
      let size : length (last_of ring.cap rs) ≢ ring.cap = rw (← h) (ground (arith, free)) in
      rw (free, h) (sym (last_of-snoc_free ring.cap rs r (last_of_short ring.cap rs size)))
]

keep_all-last_of :
    (ring : RingTelemetry) (seen rs : List OperationRecord)
    → 0 < ring.cap
    → ring.buf ≡ last_of ring.cap seen
    → (keep_all ring rs).buf ≡ last_of ring.cap (seen ++ rs)
unfolding keep_all
keep_all-last_of ring seen [] p h = rw (append-nil seen) h
keep_all-last_of ring seen (r ∷ rs) p h = rw (← append_regroup seen rs r) (
    unfold keep in
    keep_all-last_of (keep ring r) (seen ++ r ∷ []) rs p (keep-last_of ring seen r p h))

-- A ring of any capacity, also 0, that is given a history holds its last records in their order, as
-- many as its capacity, and one for a capacity of 0.
pub keep_all-new_ring :
    (n : ℕ) (rs : List OperationRecord)
    → (keep_all (new_ring n) rs).buf ≡ last_of (if ltb n 1 then 1 else n) rs
unfolding new_ring
keep_all-new_ring n rs =
    let nothing : 0 - (if ltb n 1 then 1 else n) ≡ 0 = omega arith in
    keep_all-last_of (new_ring n) [] rs (ground arith) (rw nothing refl)
