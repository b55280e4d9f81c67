-- ===== src/Prelude/Sets.antt =====
-- Sets of numbers as lists, with the Boolean membership test of a set.
use Prim.Native.Nat.{ℕ, ◌≤◌, ◌<◌}
use mathlib.Core.Path.{◌≡◌, refl, ap}
use mathlib.Core.Bool.{Bool, true, false, ◌&&◌, ◌||◌}
use mathlib.Core.List.{List, [], ◌∷◌}
use mathlib.Core.Logic.{inl, inr}
use native.Mathlib.Omega.{arith}
use co.Prelude.Tests.{◌==◌, ==_iff, ltb, if◌then◌else◌, Bool-cases}
use co.Prelude.Lists.{length}

-- `contains`.
abbrev pub contains : List ℕ → ℕ → Bool
contains [] a = false
contains (x ∷ xs) a = (x == a) || contains xs a

-- `iter().filter(…).collect()`, and `retain`.
abbrev pub filter {ℓ} : {A : Type ℓ} → (A → Bool) → List A → List A
filter p [] = []
filter p (x ∷ xs) = let rest = filter p xs in if p x then x ∷ rest else rest

-- `BTreeSet::insert`, in a sorted list.
abbrev pub insert : ℕ → List ℕ → List ℕ
insert a [] = a ∷ []
insert a (x ∷ xs) =
    let rest = insert a xs in if ltb a x then a ∷ x ∷ xs else if a == x then x ∷ xs else x ∷ rest

-- `BTreeSet::extend`.
abbrev pub extend : List ℕ → List ℕ → List ℕ
extend set [] = set
extend set (a ∷ more) = extend (insert a set) more

pub contains-filter :
    (p : ℕ → Bool) (xs : List ℕ) (a : ℕ) → contains (filter p xs) a ≡ (contains xs a && p a)
contains-filter p [] a = refl
contains-filter p (x ∷ xs) a = elim (Bool-cases (x == a)) [
  | inl same ↦ ground (arith, ap p ((==_iff x a).0 same), contains-filter p xs a)
  | inr differs ↦ ground (arith, contains-filter p xs a)
]

pub contains-insert :
    (a : ℕ) (xs : List ℕ) (b : ℕ) → contains (insert a xs) b ≡ ((a == b) || contains xs b)
contains-insert a [] b = refl
contains-insert a (x ∷ xs) b = ground (arith, contains-insert a xs b)

pub contains-extend :
    (set more : List ℕ) (b : ℕ) → contains (extend set more) b ≡ (contains set b || contains more b)
contains-extend set [] b = ground arith
contains-extend set (a ∷ more) b =
    ground (arith, contains-extend (insert a set) more b, contains-insert a set b)

pub length-filter : (p : ℕ → Bool) (xs : List ℕ) → length (filter p xs) ≤ length xs
length-filter p [] = omega arith
length-filter p (x ∷ xs) = ground (arith, length-filter p xs)

-- A filter that drops a member is shorter.
pub length-filter_lt :
    (p : ℕ → Bool) (xs : List ℕ) (a : ℕ)
    → contains xs a ≡ true
    → p a ≡ false
    → length (filter p xs) < length xs
length-filter_lt p [] a mem out = cc
length-filter_lt p (x ∷ xs) a mem out = elim (Bool-cases (x == a)) [
  | inl same ↦ ground (arith, ap p ((==_iff x a).0 same), length-filter p xs)
  | inr differs ↦ ground (arith, length-filter_lt p xs a)
]
