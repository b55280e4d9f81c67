-- ===== src/Derive/SoftLifetimes/Validate.antt =====
-- `validate_soft_lifetimes` of derive/src/validate.rs: the lifetimes of a soft argument, which is only
-- borrowed for the call.
use co.Prelude.{
  Bool, true, false, not, ◌&&◌, ◌||◌, ◌==◌, Option, none, some, List, [], ◌∷◌, ◌++◌, Result, ok,
  err, if◌then◌else◌,
}
use co.Derive.SoftLifetimes.{
  Lifetime, underscore, fresh, named, Ty, done, lifetime, reference, fn_ptr, Input, self_value,
  self_reference, self_typed, typed, FnArg, Signature, explicitize_signature_lifetimes,
}

pub data SoftError : Type 0 where
  explicit_lifetime : Lifetime → SoftError
  connected_argument borrowed_output connected_lifetimes : SoftError

-- Whether two identifiers are the same.
unfoldable pub lifetime_eq : Lifetime → Lifetime → Bool
lifetime_eq underscore underscore = true
lifetime_eq (fresh i) (fresh j) = i == j
lifetime_eq (named x) (named y) = x == y
lifetime_eq _ _ = false

unfoldable pub has_lifetime : List Lifetime → Lifetime → Bool
unfolding lifetime_eq
has_lifetime [] l = false
has_lifetime (k ∷ ls) l = lifetime_eq k l || has_lifetime ls l

-- `input_type`, with `receiver_ty`.
unfoldable pub input_type : Input → Ty
input_type self_value = done
input_type (self_reference l) = reference l done done
input_type (self_typed t) = t
input_type (typed t) = t

-- `collect_lifetimes`.
unfoldable pub collect_lifetimes : Ty → List Lifetime
collect_lifetimes done = []
collect_lifetimes (lifetime l rest) = l ∷ collect_lifetimes rest
collect_lifetimes (reference none elem rest) = collect_lifetimes elem ++ collect_lifetimes rest
collect_lifetimes (reference (some l) elem rest) =
    l ∷ (collect_lifetimes elem ++ collect_lifetimes rest)
collect_lifetimes (fn_ptr inner rest) = collect_lifetimes inner ++ collect_lifetimes rest

-- The lifetimes of the soft arguments; in the first loop, the explicit ones.
unfoldable pub soft_lifetimes : List FnArg → List Lifetime
unfolding collect_lifetimes input_type
soft_lifetimes [] = []
soft_lifetimes (arg ∷ args) =
    let rest = soft_lifetimes args in
    if arg.is_soft then collect_lifetimes (input_type arg.input) ++ rest else rest

-- `.any(|lifetime| soft_lifetimes.contains(…))`.
unfoldable pub any_soft : List Lifetime → List Lifetime → Bool
unfolding has_lifetime
any_soft soft [] = false
any_soft soft (l ∷ ls) = has_lifetime soft l || any_soft soft ls

-- The loop over the arguments that are not soft.
unfoldable pub argument_errors : List Lifetime → List FnArg → List SoftError
unfolding any_soft collect_lifetimes input_type
argument_errors soft [] = []
argument_errors soft (arg ∷ args) =
    let rest = argument_errors soft args in
    if not arg.is_soft && any_soft soft (collect_lifetimes (input_type arg.input))
    then connected_argument ∷ rest
    else rest

unfoldable pub output_errors : List Lifetime → Option Ty → List SoftError
unfolding any_soft collect_lifetimes
output_errors soft none = []
output_errors soft (some output) =
    if any_soft soft (collect_lifetimes output) then borrowed_output ∷ [] else []

-- `connect_to_parents`: the pairs that it inserts into `connections`.
unfoldable pub connect_to_parents : Lifetime → List Lifetime → List (Lifetime × Lifetime)
connect_to_parents l [] = []
connect_to_parents l (parent ∷ parents) = (l, parent) ∷ (parent, l) ∷ connect_to_parents l parents

-- `LifetimeConnectionCollector`, from the parents.
unfoldable pub connections : List Lifetime → Ty → List (Lifetime × Lifetime)
unfolding connect_to_parents
connections parents done = []
connections parents (lifetime l rest) = connect_to_parents l parents ++ connections parents rest
connections parents (reference none elem rest) =
    connections parents elem ++ connections parents rest
connections parents (reference (some l) elem rest) =
    connect_to_parents l parents ++ (connections (l ∷ parents) elem ++ connections parents rest)
connections parents (fn_ptr inner rest) = connections parents inner ++ connections parents rest

unfoldable pub soft_connections : List FnArg → List (Lifetime × Lifetime)
unfolding connections input_type
soft_connections [] = []
soft_connections (arg ∷ args) =
    let rest = soft_connections args in
    if arg.is_soft then connections [] (input_type arg.input) ++ rest else rest

-- `connected_soft_lifetime`: whether a soft lifetime is connected to another one.
unfoldable pub connected_soft_lifetime : List Lifetime → List (Lifetime × Lifetime) → Bool
unfolding has_lifetime lifetime_eq
connected_soft_lifetime soft [] = false
connected_soft_lifetime soft ((l, other) ∷ pairs) =
    (has_lifetime soft l && not (lifetime_eq other l)) || connected_soft_lifetime soft pairs

unfoldable pub connection_errors : List Lifetime → List FnArg → List SoftError
unfolding connected_soft_lifetime soft_connections
connection_errors soft args =
    if connected_soft_lifetime soft (soft_connections args) then connected_lifetimes ∷ [] else []

unfoldable pub explicit_errors : List Lifetime → List SoftError
explicit_errors [] = []
explicit_errors (l ∷ ls) = explicit_lifetime l ∷ explicit_errors ls

-- The checks behind `explicitize_signature_lifetimes`.
unfoldable pub lifetime_errors : Signature → List SoftError
unfolding soft_lifetimes argument_errors output_errors connection_errors
lifetime_errors sig =
    let soft = soft_lifetimes sig.inputs in
    argument_errors soft sig.inputs
    ++ (output_errors soft sig.output ++ connection_errors soft sig.inputs)

unfoldable pub no_errors : List SoftError → Result (Unit {0}) (List SoftError)
no_errors [] = ok tt
no_errors (e ∷ es) = err (e ∷ es)

-- The early return for explicit lifetimes.
unfoldable pub validate_with : List SoftError → Signature → Result (Unit {0}) (List SoftError)
unfolding no_errors lifetime_errors explicitize_signature_lifetimes
validate_with [] sig = no_errors (lifetime_errors (explicitize_signature_lifetimes sig))
validate_with (e ∷ es) sig = err (e ∷ es)

-- `validate_soft_lifetimes`.
unfoldable pub validate_soft_lifetimes : Signature → Result (Unit {0}) (List SoftError)
unfolding validate_with explicit_errors soft_lifetimes
validate_soft_lifetimes sig = validate_with (explicit_errors (soft_lifetimes sig.inputs)) sig
