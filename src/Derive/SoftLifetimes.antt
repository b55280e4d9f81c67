-- ===== src/Derive/SoftLifetimes.antt =====
-- `explicitize_signature_lifetimes` of derive/src/ffi_fn.rs: fresh names for the elided lifetimes of the
-- arguments of a function, and the lifetime that stands for the elided ones of its result.
pub mod Validate
pub mod Visit
pub mod Sources
pub mod Members
pub mod Flags
pub mod Connected
pub mod Output
pub mod Accepts
use co.Prelude.{
  ℕ, suc, Bool, true, false, not, ◌&&◌, ◌||◌, Option, none, some, List, [], ◌∷◌, ◌++◌,
  if◌then◌else◌,
}

-- `syn::Lifetime`: `'_`, the name `'__co3_i`, or another name.
pub data Lifetime : Type 0 where
  underscore : Lifetime
  fresh : ℕ → Lifetime
  named : ℕ → Lifetime

-- `syn::Type` as a visitor of lifetimes sees it: the references, the function pointers and the lifetimes
-- in the order of the visit, each in front of what is visited behind it. Whatever else a type is made of
-- is only walked through.
pub data Ty : Type 0 where
  done : Ty
  lifetime : Lifetime → Ty → Ty
  reference : Option Lifetime → Ty → Ty → Ty
  fn_ptr : Ty → Ty → Ty

-- `syn::FnArg`, with the kinds of a receiver.
pub data Input : Type 0 where
  self_value : Input
  self_reference : Option Lifetime → Input
  self_typed typed : Ty → Input

pub record FnArg : Type 0 where
  pub is_soft : Bool
  pub input : Input

pub record Signature : Type 0 where
  pub inputs : List FnArg
  pub output : Option Ty

-- The fields `out_lifetime`, `multiple_lifetimes` and `is_self` of `InputLifetimeCollector`.
pub record Recorded : Type 0 where
  pub out_lifetime : Option Lifetime
  pub multiple_lifetimes : Bool
  pub is_self : Bool

-- `struct InputLifetimeCollector`; `generics` are the parameters that it has pushed.
pub record Collector : Type 0 where
  pub generics : List Lifetime
  pub next_idx : ℕ
  pub recorded : Recorded

-- `InputLifetimeCollector::new`.
abbrev pub new_collector : Collector
new_collector = record {
  generics = [];
  next_idx = 0;
  recorded = record { out_lifetime = none; multiple_lifetimes = false; is_self = false };
}

-- `explicitize_lifetime`.
unfoldable pub explicitize_lifetime : Lifetime → Collector → Lifetime × Collector
explicitize_lifetime underscore s = (
  fresh s.next_idx,
  record {
    generics = s.generics ++ (fresh s.next_idx ∷ []);
    next_idx = suc s.next_idx;
    recorded = s.recorded;
  },
)
explicitize_lifetime (fresh i) s = (fresh i, s)
explicitize_lifetime (named x) s = (named x, s)

-- `record_lifetime::<IS_SELF>`, by `out_lifetime`.
unfoldable pub record_with : Bool → Lifetime → Option Lifetime → Recorded → Recorded
record_with by_self l none r = record {
  out_lifetime = some l;
  multiple_lifetimes = r.multiple_lifetimes;
  is_self = by_self;
}
record_with true l (some o) r = record {
  out_lifetime = some l;
  multiple_lifetimes = true;
  is_self = true;
}
record_with false l (some o) r = record {
  out_lifetime = if r.is_self then some o else none;
  multiple_lifetimes = true;
  is_self = r.is_self;
}

unfoldable pub record_lifetime : Bool → Lifetime → Recorded → Recorded
unfolding record_with
record_lifetime by_self l r = record_with by_self l r.out_lifetime r

unfoldable pub recording : Bool → Lifetime → Collector → Collector
unfolding record_lifetime
recording by_self l s = record {
  generics = s.generics;
  next_idx = s.next_idx;
  recorded = record_lifetime by_self l s.recorded;
}

-- `get_or_insert_with`.
abbrev pub or_underscore : Option Lifetime → Lifetime
or_underscore none = underscore
or_underscore (some l) = l

-- `visit_type_mut`, with the overridden visits of references, lifetimes and function pointers.
unfoldable pub visit_ty : Ty → Collector → Ty × Collector
unfolding explicitize_lifetime recording
visit_ty done s = (done, s)
visit_ty (lifetime l rest) s =
    let (l', s1) = explicitize_lifetime l s in
    let (rest', s2) = visit_ty rest (recording false l' s1) in (lifetime l' rest', s2)
visit_ty (reference l elem rest) s =
    let (l', s1) = explicitize_lifetime (or_underscore l) s in
    let (elem', s2) = visit_ty elem (recording false l' s1) in
    let (rest', s3) = visit_ty rest s2 in (reference (some l') elem' rest', s3)
visit_ty (fn_ptr inner rest) s = let (rest', s') = visit_ty rest s in (fn_ptr inner rest', s')

-- `visit_fn_arg_mut`, with `visit_receiver_mut`.
unfoldable pub visit_input : Input → Collector → Input × Collector
unfolding visit_ty explicitize_lifetime recording
visit_input self_value s = (self_value, s)
visit_input (self_reference l) s =
    let (l', s1) = explicitize_lifetime (or_underscore l) s in
    (self_reference (some l'), recording true l' s1)
visit_input (self_typed t) s = let (t', s') = visit_ty t s in (self_typed t', s')
visit_input (typed t) s = let (t', s') = visit_ty t s in (typed t', s')

unfoldable pub visit_inputs : List FnArg → Collector → List FnArg × Collector
unfolding visit_input
visit_inputs [] s = ([], s)
visit_inputs (arg ∷ args) s =
    let (input', s1) = visit_input arg.input s in
    let (args', s2) = visit_inputs args s1 in
    (record { is_soft = arg.is_soft; input = input' } ∷ args', s2)

-- `output_lifetime`.
unfoldable pub output_lifetime : Recorded → Option Lifetime
output_lifetime r = if not r.multiple_lifetimes || r.is_self then r.out_lifetime else none

abbrev pub is_elided : Option Lifetime → Bool
is_elided none = true
is_elided (some underscore) = true
is_elided (some (fresh i)) = false
is_elided (some (named x)) = false

-- `OutputLifetimeExplicator`.
unfoldable pub explicate : Lifetime → Ty → Ty
explicate l done = done
explicate l (lifetime l' rest) = lifetime (if is_elided (some l') then l else l') (explicate l rest)
explicate l (reference l' elem rest) =
    reference (if is_elided l' then some l else l') (explicate l elem) (explicate l rest)
explicate l (fn_ptr inner rest) = fn_ptr inner (explicate l rest)

unfoldable pub explicate_output : Option Lifetime → Option Ty → Option Ty
unfolding explicate
explicate_output (some l) (some output) = some (explicate l output)
explicate_output none (some output) = some output
explicate_output _ none = none

-- `explicitize_signature_lifetimes`, for the arguments and the result.
unfoldable pub explicitize_signature_lifetimes : Signature → Signature
unfolding visit_inputs output_lifetime explicate_output
explicitize_signature_lifetimes sig =
    let (inputs', s) = visit_inputs sig.inputs new_collector in
    record { inputs = inputs'; output = explicate_output (output_lifetime s.recorded) sig.output }
