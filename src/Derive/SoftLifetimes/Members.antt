-- ===== src/Derive/SoftLifetimes/Members.antt =====
-- Which names the soft arguments have, and that the others have none of them.
use co.Prelude.{
  ℕ, ◌+◌, ◌<◌, Bool, true, false, not, ◌&&◌, ◌||◌, List, [], ◌∷◌, Bool-cases, inl, inr, ◌≡◌, ◌∙◌,
  refl, ap, arith,
}
use co.Derive.SoftLifetimes.{
  Lifetime, fresh, done, reference, Input, self_value, self_reference, self_typed, typed, FnArg,
  Collector, recording, visit_ty, visit_input, visit_inputs,
}
use co.Derive.SoftLifetimes.Validate.{has_lifetime, input_type, collect_lifetimes, soft_lifetimes}
use co.Derive.SoftLifetimes.Visit.{
  elided, is_own, is_written, is_bare, within, has-append, visit-next_idx, visit-collect,
  bare-all_fresh,
}

-- Whether the arguments write no lifetime with a name that is left to the macro.
unfoldable pub all_written : List FnArg → Bool
unfolding is_written input_type
all_written [] = true
all_written (arg ∷ args) = is_written (input_type arg.input) && all_written args

-- Whether the soft arguments write no lifetime.
unfoldable pub soft_bare : List FnArg → Bool
unfolding is_bare input_type
soft_bare [] = true
soft_bare (arg ∷ args) = (not arg.is_soft || is_bare (input_type arg.input)) && soft_bare args

-- Whether the fresh name `i` is given to a soft argument, from the number `n`.
unfoldable pub soft_at : List FnArg → ℕ → ℕ → Bool
unfolding elided input_type
soft_at [] n i = false
soft_at (arg ∷ args) n i =
    let k = elided (input_type arg.input) in
    (arg.is_soft && within n (n + k) i) || soft_at args (n + k) i

pub soft_at_low : (args : List FnArg) (n i : ℕ) (low : i < n) → soft_at args n i ≡ false
unfolding soft_at
soft_at_low [] n i low = refl
soft_at_low (arg ∷ args) n i low =
    let rest = soft_at_low args (n + elided (input_type arg.input)) i (omega (arith, low)) in
    ground (arith, low, rest)

-- A receiver is visited as its type is, but for what is recorded.
pub input-visit :
    (input : Input) (s : Collector)
    → input_type (visit_input input s).0 ≡ (visit_ty (input_type input) s).0
unfolding visit_input visit_ty input_type
input-visit self_value s = refl
input-visit (self_reference l) s = refl
input-visit (self_typed t) s = refl
input-visit (typed t) s = refl

pub input-next_idx :
    (input : Input) (s : Collector)
    → (visit_input input s).1.next_idx ≡ s.next_idx + elided (input_type input)
unfolding visit_input visit_ty input_type recording
input-next_idx self_value s = visit-next_idx done s
input-next_idx (self_reference l) s = visit-next_idx (reference l done done) s
input-next_idx (self_typed t) s = visit-next_idx t s
input-next_idx (typed t) s = visit-next_idx t s

pub input-collect :
    (input : Input) (s : Collector) (i : ℕ) (written : is_written (input_type input) ≡ true)
    → has_lifetime (collect_lifetimes (input_type (visit_input input s).0)) (fresh i)
      ≡ within s.next_idx (s.next_idx + elided (input_type input)) i
input-collect input s i written =
    ap (λ t. has_lifetime (collect_lifetimes t) (fresh i)) (input-visit input s)
    ∙ visit-collect (input_type input) s i written

pub input-all_fresh :
    (input : Input) (s : Collector) (l : Lifetime) (own : is_own l ≡ true)
    (bare : is_bare (input_type input) ≡ true)
    → has_lifetime (collect_lifetimes (input_type (visit_input input s).0)) l ≡ false
input-all_fresh input s l own bare =
    ap (λ t. has_lifetime (collect_lifetimes t) l) (input-visit input s)
    ∙ bare-all_fresh (input_type input) s l own bare

-- The fresh names of the soft arguments.
pub soft-fresh :
    (args : List FnArg) (s : Collector) (i : ℕ) (written : all_written args ≡ true)
    → has_lifetime (soft_lifetimes (visit_inputs args s).0) (fresh i) ≡ soft_at args s.next_idx i
unfolding visit_inputs soft_lifetimes soft_at all_written has_lifetime
soft-fresh [] s i written = refl
soft-fresh (arg ∷ args) s i written =
    let (input', s1) = visit_input arg.input s in
    let here = input-collect arg.input s i (ground (arith, written)) in
    let rest = soft-fresh args s1 i (ground (arith, written)) in
    let next = ap (λ n. soft_at args n i) (input-next_idx arg.input s) in
    elim (Bool-cases arg.is_soft) [
      | inl soft ↦ rw (soft) (
          has-append (collect_lifetimes (input_type input'))
            (soft_lifetimes (visit_inputs args s1).0) (fresh i)
          ∙ rw (here, rest, next) refl)
      | inr hard ↦ rw (hard) (rest ∙ next)
    ]

-- No other name is among them.
pub soft-own :
    (args : List FnArg) (s : Collector) (l : Lifetime) (own : is_own l ≡ true)
    (bare : soft_bare args ≡ true)
    → has_lifetime (soft_lifetimes (visit_inputs args s).0) l ≡ false
unfolding visit_inputs soft_lifetimes soft_bare has_lifetime
soft-own [] s l own bare = refl
soft-own (arg ∷ args) s l own bare =
    let (input', s1) = visit_input arg.input s in
    let rest = soft-own args s1 l own (ground (arith, bare)) in
    elim (Bool-cases arg.is_soft) [
      | inl soft ↦ rw (soft) (
          has-append (collect_lifetimes (input_type input'))
            (soft_lifetimes (visit_inputs args s1).0) l
          ∙ rw (input-all_fresh arg.input s l own (ground (arith, bare, soft)), rest) refl)
      | inr hard ↦ rw (hard) rest
    ]
