-- ===== src/Base/Sorting.antt =====
-- Sorting of lists: a stable insertion sort, and what it keeps.
use Prim.Native.Nat.{ℕ, suc, ◌≤◌}
use mathlib.Core.Path.{◌≡◌, refl, ap, ◌∙◌}
use mathlib.Core.Logic.{inl, inr}
use mathlib.Core.List.{List, [], ◌∷◌}
use mathlib.Core.Bool.{Bool, true}
use native.Mathlib.Omega.{arith}
use the_six.Base.Tests.{Bool-cases, if◌then◌else◌, leb}
use the_six.Base.Lists.{length, filter}

-- `first x y` says that `x` may stand before `y`.
module _ {A : Type 0} (first : A → A → Bool) where
  abbrev pub insert : A → List A → List A
  insert x [] = x ∷ []
  insert x (y ∷ ys) = let rest = insert x ys in if first x y then x ∷ y ∷ ys else y ∷ rest

  abbrev pub sort_by : List A → List A
  sort_by [] = []
  sort_by (x ∷ xs) = insert x (sort_by xs)

  pub length-insert : (x : A) (xs : List A) → length (insert x xs) ≡ suc (length xs)
  length-insert x [] = refl
  length-insert x (y ∷ ys) =
      let rest = length-insert x ys in
      elim (Bool-cases (first x y)) [ inl here ↦ rw here refl | inr later ↦ rw later (ap suc rest) ]

  pub length-sort_by : (xs : List A) → length (sort_by xs) ≡ length xs
  length-sort_by [] = refl
  length-sort_by (x ∷ xs) = length-insert x (sort_by xs) ∙ ap suc (length-sort_by xs)

-- A predicate holds of every element of a list.
abbrev pub All : {A : Type 0} → (A → Type 0) → List A → Type 0
All P [] = Unit
All P (x ∷ xs) = P x × All P xs

module _ {A : Type 0} where
  pub All-map : {P Q : A → Type 0} (xs : List A) → ((x : A) → P x → Q x) → All P xs → All Q xs
  All-map [] f h = tt
  All-map (x ∷ xs) f h = (f x h.0, All-map xs f h.1)

  module _ (P : A → Type 0) where
    pub All-filter :
        (test : A → Bool) (xs : List A)
        → All P xs
        → All (λ x. P x × (test x ≡ true)) (filter test xs)
    All-filter test [] h = tt
    All-filter test (x ∷ xs) h =
        let rest = All-filter test xs h.1 in
        elim (Bool-cases (test x)) [
          | inl passes ↦ rw passes ((h.0, passes), rest)
          | inr fails ↦ rw fails rest
        ]

    pub All-insert :
        (first : A → A → Bool) (x : A) (xs : List A) → P x → All P xs → All P (insert first x xs)
    All-insert first x [] p h = (p, tt)
    All-insert first x (y ∷ ys) p h =
        let rest = All-insert first x ys p h.1 in
        elim (Bool-cases (first x y)) [
          | inl here ↦ rw here (p, h)
          | inr later ↦ rw later (h.0, rest)
        ]

    pub All-sort_by : (first : A → A → Bool) (xs : List A) → All P xs → All P (sort_by first xs)
    All-sort_by first [] h = tt
    All-sort_by first (x ∷ xs) h =
        All-insert first x (sort_by first xs) h.0 (All-sort_by first xs h.1)

-- How many elements pass a test.
abbrev pub count : {A : Type 0} → (A → Bool) → List A → ℕ
count test xs = length (filter test xs)

module _ {A : Type 0} (first : A → A → Bool) (test : A → Bool) where
  count-insert : (x : A) (xs : List A) → count test (insert first x xs) ≡ count test (x ∷ xs)
  count-insert x [] = refl
  count-insert x (y ∷ ys) =
      let rest = count-insert x ys in
      elim (Bool-cases (first x y)) [
        | inl here ↦ rw here refl
        | inr later ↦ rw later (ground (arith, rest))
      ]

  pub count-sort_by : (xs : List A) → count test (sort_by first xs) ≡ count test xs
  count-sort_by [] = refl
  count-sort_by (x ∷ xs) = count-insert x (sort_by first xs) ∙ ground (arith, count-sort_by xs)

-- A list of numbers from the least to the greatest.
abbrev pub IsSorted : List ℕ → Type 0
IsSorted [] = Unit
IsSorted (x ∷ xs) = All (λ y. x ≤ y) xs × IsSorted xs

insert-IsSorted : (x : ℕ) (xs : List ℕ) → IsSorted xs → IsSorted (insert leb x xs)
insert-IsSorted x [] s = (tt, tt)
insert-IsSorted x (y ∷ ys) s =
    let rest = insert-IsSorted x ys s.1 in
    elim (Bool-cases (leb x y)) [
      | inl here ↦
          let xy : x ≤ y = ground arith in rw here ((xy, All-map ys (λ z h. omega arith) s.0), s)
      | inr later ↦
          let yx : y ≤ x = ground arith in rw later (All-insert (λ z. y ≤ z) leb x ys yx s.0, rest)
    ]

pub sort_by-IsSorted : (xs : List ℕ) → IsSorted (sort_by leb xs)
sort_by-IsSorted [] = tt
sort_by-IsSorted (x ∷ xs) = insert-IsSorted x (sort_by leb xs) (sort_by-IsSorted xs)
