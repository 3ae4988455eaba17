-- ===== src/Telemetry/Percentiles.antt =====
-- `LatencyPercentiles` of `src/telemetry.rs`: nearest-rank percentiles of the latencies of a ring.
use the_six.Base.{
  ℕ, zero, suc, ◌+◌, ◌-◌, ◌*◌, ◌/◌, ◌≤◌, ◌<◌, List, [], ◌∷◌, map, ltb, leb, length, get_or,
  if◌then◌else◌, arith, Bool-cases, inl, inr,
}
use the_six.Base.Sorting.{sort_by, length-sort_by, All, IsSorted, sort_by-IsSorted}
use the_six.Telemetry.Ring.{RingTelemetry}

pub record LatencyPercentiles : Type 0 where
  pub sampled : ℕ
  pub p50 : ℕ
  pub p95 : ℕ
  pub p99 : ℕ
  pub p99_9 : ℕ
  pub max : ℕ

-- `(num * len).div_ceil(den).clamp(1, len)`.
unfoldable pub rank : ℕ → ℕ → ℕ → ℕ
rank num den len =
    let ceil = (num * len + den - 1) / den in
    if ltb ceil 1 then 1 else if ltb len ceil then len else ceil

-- The closure `at` of `from_samples`, on the sorted samples.
unfoldable pub at : List ℕ → ℕ → ℕ → ℕ
unfolding rank
at samples num den = get_or samples (rank num den (length samples) - 1) 0

-- `LatencyPercentiles::from_samples`; no sample gives the default, which is all 0.
unfoldable pub from_samples : List ℕ → LatencyPercentiles
unfolding at
from_samples samples =
    let sorted = sort_by leb samples in
    if ltb 0 (length samples)
    then record {
      sampled = length sorted;
      p50 = at sorted 50 100;
      p95 = at sorted 95 100;
      p99 = at sorted 99 100;
      p99_9 = at sorted 999 1000;
      max = get_or sorted (length sorted - 1) 0;
    }
    else record { sampled = 0; p50 = 0; p95 = 0; p99 = 0; p99_9 = 0; max = 0 }

-- `RingTelemetry::percentiles`; a latency is read in microseconds.
unfoldable pub percentiles : RingTelemetry → LatencyPercentiles
unfolding from_samples
percentiles ring = from_samples (map (λ r. r.latency / 1000) ring.buf)

All-get : (P : ℕ → Type 0) (xs : List ℕ) (i : ℕ) → i < length xs → All P xs → P (get_or xs i 0)
All-get P [] i h all = absurd (omega arith)
All-get P (x ∷ xs) zero h all = all.0
All-get P (x ∷ xs) (suc i) h all = All-get P xs i (omega arith) all.1

-- A later sample of a sorted list is at least an earlier one.
get-le :
    (xs : List ℕ) (i j : ℕ) → IsSorted xs → i ≤ j → j < length xs → get_or xs i 0 ≤ get_or xs j 0
get-le [] i j s h k = absurd (omega arith)
get-le (x ∷ xs) zero zero s h k = omega arith
get-le (x ∷ xs) zero (suc j) s h k = All-get (λ y. x ≤ y) xs j (omega arith) s.0
get-le (x ∷ xs) (suc i) zero s h k = absurd (omega arith)
get-le (x ∷ xs) (suc i) (suc j) s h k = get-le xs i j s.1 (omega arith) (omega arith)

rank-bounds : (num den len : ℕ) → 0 < len → (0 < rank num den len) × (rank num den len ≤ len)
unfolding rank
rank-bounds num den len h = ground arith

rank_mono :
    (len : ℕ)
    → 0 < len
    → (rank 50 100 len ≤ rank 95 100 len)
      × (rank 95 100 len ≤ rank 99 100 len)
      × (rank 99 100 len ≤ rank 999 1000 len)
      × (rank 999 1000 len ≤ len)
unfolding rank
rank_mono len h = ground arith

-- The percentiles of some samples stand in their order.
pub from_samples-ordered :
    (samples : List ℕ)
    → let p = from_samples samples in
      (p.p50 ≤ p.p95) × (p.p95 ≤ p.p99) × (p.p99 ≤ p.p99_9) × (p.p99_9 ≤ p.max)
unfolding from_samples
from_samples-ordered samples = elim (Bool-cases (ltb 0 (length samples))) [
  | inl there ↦
      let n = length samples in
      let sorted = sort_by leb samples in
      let size = length-sort_by leb samples in
      let some_samples : 0 < n = ground arith in
      let m = rank_mono n some_samples in
      let a = rank-bounds 50 100 n some_samples in
      let b = rank-bounds 95 100 n some_samples in
      let c = rank-bounds 99 100 n some_samples in
      let d = rank-bounds 999 1000 n some_samples in
      let s = sort_by-IsSorted samples in
      let le : (i j : ℕ) → i ≤ j → j < n → get_or sorted i 0 ≤ get_or sorted j 0 =
        λ i j h k. get-le sorted i j s h (rw size k) in
      rw (there, size)
        (
          le (rank 50 100 n - 1) (rank 95 100 n - 1) (omega (arith, m)) (omega (arith, b)),
          le (rank 95 100 n - 1) (rank 99 100 n - 1) (omega (arith, m)) (omega (arith, c)),
          le (rank 99 100 n - 1) (rank 999 1000 n - 1) (omega (arith, m)) (omega (arith, d)),
          le (rank 999 1000 n - 1) (n - 1) (omega (arith, m)) (omega arith),
        )
  | inr empty ↦ rw empty (omega arith)
]
