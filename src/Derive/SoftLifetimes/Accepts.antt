-- ===== src/Derive/SoftLifetimes/Accepts.antt =====
-- Which signatures `validate_soft_lifetimes` accepts.
use co.Prelude.{
  ℕ, ◌≤◌, Bool, true, false, not, ◌&&◌, Option, none, some, map_some, List, [], ◌∷◌, ◌++◌, Result,
  ok, err, Bool-cases, inl, inr, if◌then◌else◌, ◌≡◌, ◌∙◌, refl, sym, ap,
}
use co.Derive.SoftLifetimes.{
  Lifetime, Ty, done, lifetime, reference, fn_ptr, FnArg, Signature, new_collector, visit_inputs,
  output_lifetime, explicate_output, explicitize_signature_lifetimes,
}
use co.Derive.SoftLifetimes.Validate.{
  SoftError, connected_lifetimes, has_lifetime, collect_lifetimes, input_type, soft_lifetimes,
  argument_errors, output_errors, soft_connections, connected_soft_lifetime, connection_errors,
  explicit_errors, lifetime_errors, no_errors, validate_with, validate_soft_lifetimes,
}
use co.Derive.SoftLifetimes.Visit.{is_own, is_bare}
use co.Derive.SoftLifetimes.Sources.{
  last_self, sole, or_else, elision_source, all_lifetimes, inputs-output_lifetime,
}
use co.Derive.SoftLifetimes.Members.{all_written, soft_bare, soft-fresh, soft-own}
use co.Derive.SoftLifetimes.Flags.{flagged, sources, inputs-flagged}
use co.Derive.SoftLifetimes.Connected.{soft_nested, inputs-connected}
use co.Derive.SoftLifetimes.Output.{
  is_true, has_elided_output, is_written_output, is_nil, output_none,
}

abbrev pub is_ok {ℓ κ} : {A : Type ℓ} {E : Type κ} → Result A E → Bool
is_ok (ok a) = true
is_ok (err e) = false

-- Whether a result borrows, by the rules of elision, from a soft argument.
unfoldable pub borrows_soft : List FnArg → Option Ty → Bool
unfolding elision_source sources
borrows_soft args output = has_elided_output output && is_true (elision_source (sources args))

flagged-last_self :
    (soft : List Lifetime) (es : List (Bool × Lifetime)) (o : Option Lifetime)
    → last_self (flagged soft es) (map_some (has_lifetime soft) o)
      ≡ map_some (has_lifetime soft) (last_self es o)
unfolding last_self flagged
flagged-last_self soft [] o = refl
flagged-last_self soft ((true, l) ∷ es) o = flagged-last_self soft es (some l)
flagged-last_self soft ((false, l) ∷ es) o = flagged-last_self soft es o

flagged-sole :
    (soft : List Lifetime) (es : List (Bool × Lifetime))
    → sole (flagged soft es) ≡ map_some (has_lifetime soft) (sole es)
unfolding sole flagged
flagged-sole soft [] = refl
flagged-sole soft ((b, l) ∷ []) = refl
flagged-sole soft ((b, l) ∷ (c, k) ∷ es) = refl

or_else_map :
    (soft : List Lifetime) (o p : Option Lifetime)
    → or_else (map_some (has_lifetime soft) o) (map_some (has_lifetime soft) p)
      ≡ map_some (has_lifetime soft) (or_else o p)
unfolding or_else
or_else_map soft none p = refl
or_else_map soft (some l) p = refl

flagged-elision_source :
    (soft : List Lifetime) (es : List (Bool × Lifetime))
    → elision_source (flagged soft es) ≡ map_some (has_lifetime soft) (elision_source es)
unfolding elision_source
flagged-elision_source soft es =
    rw (flagged-last_self soft es none, flagged-sole soft es)
      (or_else_map soft (last_self es none) (sole es))

is_nil-append {ℓ} : {A : Type ℓ} (xs ys : List A) → is_nil (xs ++ ys) ≡ (is_nil xs && is_nil ys)
is_nil-append [] ys = refl
is_nil-append (x ∷ xs) ys = refl

nil_unless {ℓ} : {A : Type ℓ} (b : Bool) (a : A) → is_nil (if b then a ∷ [] else []) ≡ not b
nil_unless true a = refl
nil_unless false a = refl

collect-is_bare : (t : Ty) → is_nil (collect_lifetimes t) ≡ is_bare t
unfolding collect_lifetimes is_bare
collect-is_bare done = refl
collect-is_bare (lifetime l rest) = refl
collect-is_bare (reference none elem rest) =
    is_nil-append (collect_lifetimes elem) (collect_lifetimes rest)
    ∙ rw (collect-is_bare elem, collect-is_bare rest) refl
collect-is_bare (reference (some l) elem rest) = refl
collect-is_bare (fn_ptr inner rest) =
    is_nil-append (collect_lifetimes inner) (collect_lifetimes rest)
    ∙ rw (collect-is_bare inner, collect-is_bare rest) refl

-- The first loop finds nothing exactly if the soft arguments write no lifetime.
soft-is_bare : (args : List FnArg) → is_nil (soft_lifetimes args) ≡ soft_bare args
unfolding soft_lifetimes soft_bare
soft-is_bare [] = refl
soft-is_bare (arg ∷ args) = elim (Bool-cases arg.is_soft) [
  | inl is ↦ rw (is) (
      is_nil-append (collect_lifetimes (input_type arg.input)) (soft_lifetimes args)
      ∙ rw (collect-is_bare (input_type arg.input), soft-is_bare args) refl)
  | inr hard ↦ rw (hard) (soft-is_bare args)
]

-- The checks behind the first loop, for soft arguments that write no lifetime.
errors-accepted :
    (sig : Signature) (written : all_written sig.inputs ≡ true)
    (written_output : is_written_output sig.output ≡ true) (bare : soft_bare sig.inputs ≡ true)
    → is_nil (lifetime_errors (explicitize_signature_lifetimes sig))
      ≡ (not (borrows_soft sig.inputs sig.output) && not (soft_nested sig.inputs))
unfolding lifetime_errors explicitize_signature_lifetimes borrows_soft connection_errors
errors-accepted sig written written_output bare =
    let (args, s) = visit_inputs sig.inputs new_collector in
    let soft = soft_lifetimes args in
    let numbers = λ (i : ℕ) (low : 0 ≤ i). soft-fresh sig.inputs new_collector i written in
    let no_own =
      λ (l : Lifetime) (own : is_own l ≡ true). soft-own sig.inputs new_collector l own bare in
    let (no_args, flags) =
      inputs-flagged soft sig.inputs new_collector numbers no_own written bare in
    let source = output_lifetime s.recorded in
    let from : is_true (map_some (has_lifetime soft) source)
        ≡ is_true (elision_source (sources sig.inputs)) =
      ap is_true (
        ap (map_some (has_lifetime soft)) (inputs-output_lifetime sig.inputs)
        ∙ sym (flagged-elision_source soft (all_lifetimes args))
        ∙ ap elision_source flags) in
    let result : is_nil (output_errors soft (explicate_output source sig.output))
        ≡ not (borrows_soft sig.inputs sig.output) =
      output_none soft no_own source sig.output written_output
      ∙ ap (λ b. not (has_elided_output sig.output && b)) from in
    let nested : is_nil (connection_errors soft args) ≡ not (soft_nested sig.inputs) =
      nil_unless (connected_soft_lifetime soft (soft_connections args)) connected_lifetimes
      ∙ ap not (inputs-connected soft sig.inputs new_collector numbers bare) in
    is_nil-append (argument_errors soft args) _
    ∙ rw
        (
          no_args,
          is_nil-append (output_errors soft (explicate_output source sig.output))
              (connection_errors soft args),
          result,
          nested,
        )
        refl

no_errors-is_ok : (es : List SoftError) → is_ok (no_errors es) ≡ is_nil es
unfolding no_errors
no_errors-is_ok [] = refl
no_errors-is_ok (e ∷ es) = refl

validate_with-is_ok :
    (ls : List Lifetime) (sig : Signature)
    → is_ok (validate_with (explicit_errors ls) sig)
      ≡ (is_nil ls && is_nil (lifetime_errors (explicitize_signature_lifetimes sig)))
unfolding validate_with explicit_errors
validate_with-is_ok [] sig = no_errors-is_ok (lifetime_errors (explicitize_signature_lifetimes sig))
validate_with-is_ok (l ∷ ls) sig = refl

-- A signature that leaves the names of the macro alone is accepted exactly if no soft argument writes a
-- lifetime, the result does not borrow from one by elision (from the last receiver of the form
-- `&self`, or else from the only lifetime there is), and no reference stands in a reference of one,
-- function pointers aside.
pub validate_soft_lifetimes_lem :
    (sig : Signature) (written : all_written sig.inputs ≡ true)
    (written_output : is_written_output sig.output ≡ true)
    → is_ok (validate_soft_lifetimes sig) ≡ (
        soft_bare sig.inputs
        && (not (borrows_soft sig.inputs sig.output) && not (soft_nested sig.inputs)))
unfolding validate_soft_lifetimes
validate_soft_lifetimes_lem sig written written_output =
    validate_with-is_ok (soft_lifetimes sig.inputs) sig ∙ elim (Bool-cases (soft_bare sig.inputs)) [
      | inl bare ↦
          rw (soft-is_bare sig.inputs, bare, errors-accepted sig written written_output bare) refl
      | inr explicit ↦ rw (soft-is_bare sig.inputs, explicit) refl
    ]
