-- ===== src/Derive/Groups/Targets.antt =====
-- `validate_dispatch_targets` and `parse_dispatch_attr` of derive/src/parse.rs, and the substitution of
-- `for_dispatch_group` in derive/src/utils.rs.
use co.Prelude.{
  ℕ, Bool, false, not, ◌||◌, List, [], ◌∷◌, ◌++◌, length, ◌==◌, if◌then◌else◌, Result, ok, err,
  and_then,
}
use co.Derive.Dispatch.{DispatchSelection}
use co.Derive.Groups.{
  GenericParam, type_param, const_param, lifetime_param, GenericArgument, type_argument,
  const_argument, DispatchAttr, other_attr, erased_path, erased_list, GroupError, duplicate_attr,
  no_arguments, no_target, wrong_length, wrong_kind, finish, Groups, parse_dispatch_groups,
}

-- Whether `for_substitutions` keeps an identifier.
unfoldable pub is_substituted : List GenericParam → ℕ → Bool
is_substituted [] ident = false
is_substituted (type_param i ∷ generics) ident = (i == ident) || is_substituted generics ident
is_substituted (const_param i ∷ generics) ident = (i == ident) || is_substituted generics ident
is_substituted (lifetime_param i ∷ generics) ident = is_substituted generics ident

module _ {τ} {A : Type τ} where
  unfoldable pub matches_kind : GenericParam → ℕ → GenericArgument A → Bool
  matches_kind (type_param ident) param (type_argument a) = ident == param
  matches_kind (const_param ident) param (const_argument a) = ident == param
  matches_kind _ param arg = false

  -- `matches_parameter_kind`.
  unfoldable pub matches_parameter_kind : List GenericParam → ℕ → GenericArgument A → Bool
  unfolding matches_kind
  matches_parameter_kind [] param arg = false
  matches_parameter_kind (generic ∷ generics) param arg =
      matches_kind generic param arg || matches_parameter_kind generics param arg

  -- The loop over the parameters of a group with the arguments of a target.
  unfoldable pub kind_errors :
      List GenericParam → List ℕ → List (GenericArgument A) → List GroupError
  unfolding matches_parameter_kind
  kind_errors generics (param ∷ group) (arg ∷ args) =
      (if matches_parameter_kind generics param arg then [] else wrong_kind param ∷ [])
      ++ kind_errors generics group args
  kind_errors generics _ _ = []

  -- The loop over the targets of a group.
  unfoldable pub target_errors :
      List GenericParam → List ℕ → List (List (GenericArgument A)) → List GroupError
  unfolding kind_errors
  target_errors generics group [] = []
  target_errors generics group (target ∷ targets) =
      (if not (length target == length group)
        then wrong_length (length group) ∷ []
        else kind_errors generics group target)
      ++ target_errors generics group targets

  unfoldable pub group_errors :
      List GenericParam → List ℕ → List (List (GenericArgument A)) → List GroupError
  unfolding target_errors
  group_errors generics group [] = no_target ∷ []
  group_errors generics group (target ∷ targets) = target_errors generics group (target ∷ targets)

  unfoldable pub all_group_errors : List GenericParam → Groups A → List GroupError
  unfolding group_errors
  all_group_errors generics [] = []
  all_group_errors generics ((group, targets) ∷ groups) =
      group_errors generics group targets ++ all_group_errors generics groups

  -- `validate_dispatch_targets`.
  unfoldable pub validate_dispatch_targets :
      List GenericParam → Groups A → Result (Unit {0}) (List GroupError)
  unfolding all_group_errors finish
  validate_dispatch_targets generics groups = finish (all_group_errors generics groups) tt

  -- `dispatch_attrs.next()`: the other attributes behind it.
  unfoldable pub erased_attrs : List (DispatchAttr A) → List (DispatchAttr A)
  erased_attrs [] = []
  erased_attrs (other_attr ∷ attrs) = erased_attrs attrs
  erased_attrs (erased_path ∷ attrs) = erased_path ∷ erased_attrs attrs
  erased_attrs (erased_list entries ∷ attrs) = erased_list entries ∷ erased_attrs attrs

  unfoldable pub parse_erased :
      List GenericParam → List (DispatchAttr A) → Result (Groups A) (List GroupError)
  unfolding parse_dispatch_groups validate_dispatch_targets
  parse_erased generics [] = ok []
  parse_erased generics (attr ∷ duplicate ∷ attrs) = err (duplicate_attr ∷ [])
  parse_erased generics (erased_list entries ∷ []) =
      and_then (parse_dispatch_groups generics entries)
        (λ groups. and_then (validate_dispatch_targets generics groups) (λ _. ok groups))
  parse_erased generics (_ ∷ []) = err (no_arguments ∷ [])

  -- `parse_dispatch_attr`.
  unfoldable pub parse_dispatch_attr :
      List GenericParam → List (DispatchAttr A) → Result (Groups A) (List GroupError)
  unfolding parse_erased erased_attrs
  parse_dispatch_attr generics attrs = parse_erased generics (erased_attrs attrs)

  -- `zip` of parameters and arguments.
  unfoldable pub zip_arguments : List ℕ → List (GenericArgument A) → List (ℕ × GenericArgument A)
  zip_arguments (param ∷ params) (arg ∷ args) = (param, arg) ∷ zip_arguments params args
  zip_arguments _ _ = []

  -- The pairs that `for_dispatch_group` passes on.
  unfoldable pub substitutions :
      List (DispatchSelection (List ℕ) (List (GenericArgument A))) → List (ℕ × GenericArgument A)
  unfolding zip_arguments
  substitutions [] = []
  substitutions (selection ∷ selections) =
      zip_arguments selection.params selection.target ++ substitutions selections

  -- `for_substitutions`, before it is collected into a map.
  unfoldable pub for_substitutions :
      List GenericParam → List (ℕ × GenericArgument A) → List (ℕ × GenericArgument A)
  unfolding is_substituted
  for_substitutions generics [] = []
  for_substitutions generics ((ident, arg) ∷ pairs) =
      let rest = for_substitutions generics pairs in
      if is_substituted generics ident then (ident, arg) ∷ rest else rest

  -- `for_dispatch_group`.
  unfoldable pub for_dispatch_group :
      List GenericParam
      → List (DispatchSelection (List ℕ) (List (GenericArgument A)))
      → List (ℕ × GenericArgument A)
  unfolding substitutions for_substitutions
  for_dispatch_group generics selections = for_substitutions generics (substitutions selections)
