-- ===== src/Derive/SoftLifetimes/Connected.antt =====
-- The lifetimes of a soft argument are connected where a reference stands in another.
use co.Prelude.{
  ℕ, suc, ◌+◌, ◌≤◌, ◌<◌, Bool, true, false, ◌&&◌, ◌||◌, ◌==◌, none, some, List, [], ◌∷◌, ◌++◌,
  Bool-cases, inl, inr, ◌≡◌, ◌∙◌, refl, ap, arith,
}
use co.Derive.SoftLifetimes.{
  Lifetime, underscore, fresh, Ty, done, lifetime, reference, fn_ptr, FnArg, Collector,
  explicitize_lifetime, recording, visit_ty, visit_input, visit_inputs,
}
use co.Derive.SoftLifetimes.Validate.{
  lifetime_eq, has_lifetime, input_type, connect_to_parents, connections, soft_connections,
  connected_soft_lifetime,
}
use co.Derive.SoftLifetimes.Visit.{elided, is_bare, within, visit-next_idx}
use co.Derive.SoftLifetimes.Members.{soft_bare, soft_at, input-visit}
use co.Derive.SoftLifetimes.Flags.{later_numbers}

-- Whether a reference stands in another, function pointers aside; `inside` where one is around.
unfoldable pub is_nested : Bool → Ty → Bool
is_nested inside done = false
is_nested inside (lifetime l rest) = is_nested inside rest
is_nested inside (reference l elem rest) = inside || (is_nested true elem || is_nested inside rest)
is_nested inside (fn_ptr inner rest) = is_nested inside rest

unfoldable pub soft_nested : List FnArg → Bool
unfolding is_nested input_type
soft_nested [] = false
soft_nested (arg ∷ args) =
    (arg.is_soft && is_nested false (input_type arg.input)) || soft_nested args

abbrev names : List ℕ → List Lifetime
names [] = []
names (i ∷ is) = fresh i ∷ names is

abbrev is_some_parent : List ℕ → Bool
is_some_parent [] = false
is_some_parent (i ∷ is) = true

-- The parents are soft names below `n`.
abbrev Below : List Lifetime → ℕ → List ℕ → Type 0
Below soft n [] = Unit
Below soft n (i ∷ is) = (i < n) × (has_lifetime soft (fresh i) ≡ true) × Below soft n is

Below-more :
    (soft : List Lifetime) (n m : ℕ) (more : n ≤ m) (is : List ℕ) (below : Below soft n is)
    → Below soft m is
Below-more soft n m more [] below = tt
Below-more soft n m more (i ∷ is) (low, soft_i, below) =
    (omega (arith, low, more), soft_i, Below-more soft n m more is below)

connected-append :
    (soft : List Lifetime) (xs ys : List (Lifetime × Lifetime))
    → connected_soft_lifetime soft (xs ++ ys)
      ≡ (connected_soft_lifetime soft xs || connected_soft_lifetime soft ys)
unfolding connected_soft_lifetime
connected-append soft [] ys = refl
connected-append soft ((l, k) ∷ xs) ys = ground (arith, connected-append soft xs ys)

connect_lem :
    (soft : List Lifetime) (n : ℕ) (is : List ℕ) (soft_n : has_lifetime soft (fresh n) ≡ true)
    (below : Below soft n is)
    → connected_soft_lifetime soft (connect_to_parents (fresh n) (names is)) ≡ is_some_parent is
unfolding connected_soft_lifetime connect_to_parents lifetime_eq
connect_lem soft n [] soft_n below = refl
connect_lem soft n (i ∷ is) soft_n (low, soft_i, below) =
    let differs : (i == n) ≡ false = ground (arith, low) in rw (soft_n, differs) refl

bare-connections :
    (parents : List Lifetime) (t : Ty) (bare : is_bare t ≡ true) → connections parents t ≡ []
unfolding connections is_bare
bare-connections parents done bare = refl
bare-connections parents (lifetime l rest) bare = cc
bare-connections parents (reference none elem rest) bare =
    rw
      (
        bare-connections parents elem (ground (arith, bare)),
        bare-connections parents rest (ground (arith, bare)),
      )
      refl
bare-connections parents (reference (some l) elem rest) bare = cc
bare-connections parents (fn_ptr inner rest) bare =
    rw
      (
        bare-connections parents inner (ground (arith, bare)),
        bare-connections parents rest (ground (arith, bare)),
      )
      refl

visit-connected :
    (soft : List Lifetime) (t : Ty) (s : Collector) (is : List ℕ)
    (own : (i : ℕ)
      → within s.next_idx (s.next_idx + elided t) i ≡ true
      → has_lifetime soft (fresh i) ≡ true)
    (below : Below soft s.next_idx is) (bare : is_bare t ≡ true)
    → connected_soft_lifetime soft (connections (names is) (visit_ty t s).0)
      ≡ is_nested (is_some_parent is) t
unfolding connected_soft_lifetime connections visit_ty is_nested is_bare elided explicitize_lifetime
    recording
visit-connected soft done s is own below bare = refl
visit-connected soft (lifetime l rest) s is own below bare = cc
visit-connected soft (reference (some l) elem rest) s is own below bare = cc
visit-connected soft (fn_ptr inner rest) s is own below bare =
    rw (bare-connections (names is) inner (ground (arith, bare)))
      (visit-connected soft rest s is own below (ground (arith, bare)))
visit-connected soft (reference none elem rest) s is own below bare =
    let n = s.next_idx in
    let s2 = recording false (fresh n) (explicitize_lifetime underscore s).1 in
    let (elem', s3) = visit_ty elem s2 in
    let rest' = (visit_ty rest s3).0 in
    let e2 : s2.next_idx ≡ suc n = refl in
    let e3 : s3.next_idx ≡ suc n + elided elem = visit-next_idx elem s2 in
    let soft_n : has_lifetime soft (fresh n) ≡ true = own n (ground arith) in
    let head = connect_lem soft n is soft_n below in
    let middle =
      visit-connected soft elem s2 (n ∷ is) (λ i inside. own i (ground (arith, inside, e2)))
        (omega (arith, e2), soft_n, Below-more soft n s2.next_idx (omega (arith, e2)) is below)
        (ground (arith, bare)) in
    let tail =
      visit-connected soft rest s3 is (λ i inside. own i (ground (arith, inside, e3)))
        (Below-more soft n s3.next_idx (omega (arith, e3)) is below) (ground (arith, bare)) in
    connected-append soft (connect_to_parents (fresh n) (names is))
      (connections (fresh n ∷ names is) elem' ++ connections (names is) rest')
    ∙ rw
        (
          head,
          connected-append soft (connections (fresh n ∷ names is) elem')
              (connections (names is) rest'),
          middle,
          tail,
        )
        refl

-- The soft arguments are connected exactly if a reference stands in a reference of one.
pub inputs-connected :
    (soft : List Lifetime) (args : List FnArg) (s : Collector)
    (numbers : (i : ℕ) → s.next_idx ≤ i → has_lifetime soft (fresh i) ≡ soft_at args s.next_idx i)
    (bare : soft_bare args ≡ true)
    → connected_soft_lifetime soft (soft_connections (visit_inputs args s).0) ≡ soft_nested args
unfolding visit_inputs soft_connections soft_nested connected_soft_lifetime soft_bare soft_at
inputs-connected soft [] s numbers bare = refl
inputs-connected soft (arg ∷ args) s numbers bare =
    let (input', s1) = visit_input arg.input s in
    let t = input_type arg.input in
    let rest =
      inputs-connected soft args s1 (later_numbers soft arg args s numbers)
        (ground (arith, bare)) in
    elim (Bool-cases arg.is_soft) [
      | inr hard ↦ rw (hard) rest
      | inl is ↦
          (let own = λ (i : ℕ) (inside : within s.next_idx (s.next_idx + elided t) i ≡ true).
              (let whole : has_lifetime soft (fresh i) ≡ true =
                  numbers i (ground (arith, inside)) ∙ rw (is, inside) refl in
                whole) in
            let here =
              ap (λ t'. connected_soft_lifetime soft (connections [] t')) (input-visit arg.input s)
              ∙ visit-connected soft t s [] own tt (ground (arith, bare, is)) in
            rw (is) (
              connected-append soft (connections [] (input_type input'))
                (soft_connections (visit_inputs args s1).0)
              ∙ rw (here, rest) refl))
    ]
