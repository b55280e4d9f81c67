-- ===== src/Prelude/Lists.antt =====
-- Lists measured by native numbers, under the library's names.
use Prim.Native.Nat.{ℕ, zero, suc, ◌+◌, ◌-◌, ◌≤◌, ◌<◌, min}
use mathlib.Core.Path.{◌≡◌, refl, ap, ◌∙◌}
use mathlib.Core.List.{List, [], ◌∷◌, ◌++◌, map}
use mathlib.Core.Option.{Option, none, some}
use native.Mathlib.Omega.{arith}

module _ {ℓ} {A : Type ℓ} where
  abbrev pub length : List A → ℕ
  length [] = 0
  length (x ∷ xs) = suc (length xs)

  abbrev pub get_elem? : List A → ℕ → Option A
  get_elem? [] i = none
  get_elem? (x ∷ xs) zero = some x
  get_elem? (x ∷ xs) (suc i) = get_elem? xs i

  abbrev pub take : ℕ → List A → List A
  take zero xs = []
  take (suc n) [] = []
  take (suc n) (x ∷ xs) = x ∷ take n xs

  abbrev pub drop : ℕ → List A → List A
  drop zero xs = xs
  drop (suc n) [] = []
  drop (suc n) (x ∷ xs) = drop n xs

  abbrev pub replicate : ℕ → A → List A
  replicate zero a = []
  replicate (suc n) a = a ∷ replicate n a

module _ {ℓ} {A : Type ℓ} where
  pub length-append : (xs ys : List A) → length (xs ++ ys) ≡ length xs + length ys
  length-append [] ys = omega arith
  length-append (x ∷ xs) ys = omega (arith, length-append xs ys)

  pub take-append-drop : (n : ℕ) (xs : List A) → take n xs ++ drop n xs ≡ xs
  take-append-drop zero xs = refl
  take-append-drop (suc n) [] = refl
  take-append-drop (suc n) (x ∷ xs) = ap (λ ys. x ∷ ys) (take-append-drop n xs)

  pub length-take : (n : ℕ) (xs : List A) → length (take n xs) ≡ min n (length xs)
  length-take zero xs = omega arith
  length-take (suc n) [] = omega arith
  length-take (suc n) (x ∷ xs) = omega (arith, length-take n xs)

  pub length-drop : (n : ℕ) (xs : List A) → length (drop n xs) ≡ length xs - n
  length-drop zero xs = omega arith
  length-drop (suc n) [] = omega arith
  length-drop (suc n) (x ∷ xs) = omega (arith, length-drop n xs)

  pub length-map {κ} : {B : Type κ} (f : A → B) (xs : List A) → length (map f xs) ≡ length xs
  length-map f [] = refl
  length-map f (x ∷ xs) = ap suc (length-map f xs)

  -- `P` holds of every element.
  abbrev pub All {κ} : (A → Type κ) → List A → Type κ
  All P [] = Unit
  All P (x ∷ xs) = P x × All P xs

pub cons_cong {ℓ} : {A : Type ℓ} {x y : A} {xs ys : List A} → x ≡ y → xs ≡ ys → (x ∷ xs) ≡ (y ∷ ys)
cons_cong e f = rw (e, f) refl

module _ {ℓ} {A : Type ℓ} where
  pub append_nil : (xs : List A) → xs ++ [] ≡ xs
  append_nil [] = refl
  append_nil (x ∷ xs) = ap (λ ys. x ∷ ys) (append_nil xs)

  pub append_assoc : (xs ys zs : List A) → (xs ++ ys) ++ zs ≡ xs ++ (ys ++ zs)
  append_assoc [] ys zs = refl
  append_assoc (x ∷ xs) ys zs = ap (λ r. x ∷ r) (append_assoc xs ys zs)

  pub map-append {κ} :
      {B : Type κ} (f : A → B) (xs ys : List A) → map f (xs ++ ys) ≡ map f xs ++ map f ys
  map-append f [] ys = refl
  map-append f (x ∷ xs) ys = ap (λ r. f x ∷ r) (map-append f xs ys)

  -- `flatten`.
  abbrev pub concat : List (List A) → List A
  concat [] = []
  concat (xs ∷ xss) = xs ++ concat xss

  -- `slice::chunks`, on fuel.
  abbrev pub chunks_loop : ℕ → ℕ → List A → List (List A)
  chunks_loop zero n xs = []
  chunks_loop (suc fuel) n [] = []
  chunks_loop (suc fuel) n (x ∷ xs) = take n (x ∷ xs) ∷ chunks_loop fuel n (drop n (x ∷ xs))

  abbrev pub chunks : ℕ → List A → List (List A)
  chunks n xs = chunks_loop (length xs) n xs

  concat-chunks_loop :
      (fuel n : ℕ) (xs : List A) (enough : length xs ≤ fuel)
      → concat (chunks_loop fuel (suc n) xs) ≡ xs
  concat-chunks_loop zero n [] enough = refl
  concat-chunks_loop (suc fuel) n [] enough = refl
  concat-chunks_loop zero n (x ∷ xs) enough = ground arith
  concat-chunks_loop (suc fuel) n (x ∷ xs) enough =
      ap (λ r. x ∷ (take n xs ++ r))
        (concat-chunks_loop fuel n (drop n xs) (omega (arith, length-drop n xs)))
      ∙ ap (λ r. x ∷ r) (take-append-drop n xs)

  pub concat-chunks : (n : ℕ) (xs : List A) → concat (chunks (suc n) xs) ≡ xs
  concat-chunks n xs = concat-chunks_loop (length xs) n xs (omega arith)

  pub length-chunks_loop :
      (fuel n : ℕ) (xs : List A) → length (chunks_loop fuel (suc n) xs) ≤ length xs
  length-chunks_loop zero n [] = omega arith
  length-chunks_loop (suc fuel) n [] = omega arith
  length-chunks_loop zero n (x ∷ xs) = omega arith
  length-chunks_loop (suc fuel) n (x ∷ xs) =
      omega (arith, length-chunks_loop fuel n (drop n xs), length-drop n xs)

  -- Chunks of two or more are fewer than the elements.
  pub length-chunks_lt :
      (n : ℕ) (xs : List A) (many : 1 < length xs) → length (chunks (suc (suc n)) xs) < length xs
  length-chunks_lt n [] many = omega arith
  length-chunks_lt n (x ∷ xs) many =
      omega
        (arith, length-chunks_loop (length xs) (suc n) (drop (suc n) xs), length-drop (suc n) xs)

pub append_cong {ℓ} :
    {A : Type ℓ} {xs xs' ys ys' : List A} → xs ≡ xs' → ys ≡ ys' → xs ++ ys ≡ xs' ++ ys'
append_cong e f = rw (e, f) refl

module _ {ℓ} {A : Type ℓ} where
  length-take_le : (n : ℕ) (xs : List A) → length (take n xs) ≤ n
  length-take_le n xs = omega (arith, length-take n xs)

  chunks_loop_short :
      (fuel n : ℕ) (xs : List A) → All (λ chunk. length chunk ≤ n) (chunks_loop fuel n xs)
  chunks_loop_short zero n xs = tt
  chunks_loop_short (suc fuel) n [] = tt
  chunks_loop_short (suc fuel) n (x ∷ xs) =
      (length-take_le n (x ∷ xs), chunks_loop_short fuel n (drop n (x ∷ xs)))

  pub chunks_short : (n : ℕ) (xs : List A) → All (λ chunk. length chunk ≤ n) (chunks n xs)
  chunks_short n xs = chunks_loop_short (length xs) n xs

pub append_empty {ℓ} : {A : Type ℓ} (xs ys : List A) (empty : xs ++ ys ≡ []) → (xs ≡ []) × (ys ≡ [])
append_empty [] ys empty = (refl, empty)
append_empty (x ∷ xs) ys empty = cc
