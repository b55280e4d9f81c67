-- ===== src/Derive/Groups.antt =====
-- `parse_dispatch_attr` of derive/src/parse.rs: the groups of type parameters that an `erased` attribute
-- dispatches on, and their concrete targets. An identifier is its rank in the order of identifiers.
pub mod Targets
pub mod Assigned
pub mod Kinds
use co.Prelude.{
  ℕ, zero, suc, Bool, true, false, not, ◌&&◌, ◌||◌, Option, none, some, List, [], ◌∷◌, ◌++◌, length,
  ltb, ◌==◌, contains, if◌then◌else◌, Result, ok, err, and_then,
}
use co.Derive.Dispatch.{DispatchSelection}

-- `syn::GenericParam`.
pub data GenericParam : Type 0 where
  type_param const_param lifetime_param : ℕ → GenericParam

-- `syn::CapturedParam`.
pub data CapturedParam : Type 0 where
  captured : ℕ → CapturedParam
  captured_lifetime captured_other : CapturedParam

-- `syn::GenericArgument`, over what stands in it.
pub data GenericArgument {τ} (A : Type τ) : Type τ where
  type_argument const_argument other_argument : A → GenericArgument A

-- A group of the attribute, or what syn does not parse as one.
pub data Entry {τ} (A : Type τ) : Type τ where
  entry : List CapturedParam → List (List (GenericArgument A)) → Entry A
  malformed : Entry A

-- An attribute of the item; `erased` with its list, if it has one.
pub data DispatchAttr {τ} (A : Type τ) : Type τ where
  other_attr : DispatchAttr A
  erased_path : DispatchAttr A
  erased_list : List (Entry A) → DispatchAttr A

pub data GroupError : Type 0 where
  duplicate_attr no_arguments parse_error empty_group : GroupError
  lifetime_captured other_captured : GroupError
  undeclared assigned_twice : ℕ → GroupError
  no_target : GroupError
  wrong_length : ℕ → GroupError
  wrong_kind : ℕ → GroupError

-- `declared_types`, then `declared_consts`.
unfoldable pub declared_types : List GenericParam → List ℕ
declared_types [] = []
declared_types (type_param i ∷ params) = i ∷ declared_types params
declared_types (_ ∷ params) = declared_types params

unfoldable pub declared_consts : List GenericParam → List ℕ
declared_consts [] = []
declared_consts (const_param i ∷ params) = i ∷ declared_consts params
declared_consts (_ ∷ params) = declared_consts params

-- The variables of the loop in `parse_dispatch_group`.
pub record GroupState : Type 0 where
  pub assigned : List ℕ
  pub group : List ℕ
  pub errors : List GroupError

unfoldable pub push_error : GroupError → GroupState → GroupState
push_error e s = record { assigned = s.assigned; group = s.group; errors = s.errors ++ (e ∷ []) }

-- One round, for an identifier.
unfoldable pub push_ident : List ℕ → List ℕ → ℕ → GroupState → GroupState
unfolding push_error
push_ident types consts ident s =
    if not (contains types ident) && not (contains consts ident)
    then push_error (undeclared ident) s
    else if contains s.assigned ident
    then push_error (assigned_twice ident) s
    else record {
      assigned = ident ∷ s.assigned;
      group = s.group ++ (ident ∷ []);
      errors = s.errors;
    }

unfoldable pub group_loop : List ℕ → List ℕ → List CapturedParam → GroupState → GroupState
unfolding push_error push_ident
group_loop types consts [] s = s
group_loop types consts (captured ident ∷ params) s =
    group_loop types consts params (push_ident types consts ident s)
group_loop types consts (captured_lifetime ∷ params) s =
    group_loop types consts params (push_error lifetime_captured s)
group_loop types consts (captured_other ∷ params) s =
    group_loop types consts params (push_error other_captured s)

-- `errors.map_or(Ok(…), Err)`.
unfoldable pub finish {ℓ} : {A : Type ℓ} → List GroupError → A → Result A (List GroupError)
finish [] a = ok a
finish (e ∷ es) a = err (e ∷ es)

-- `parse_dispatch_group`: the group, and what is assigned behind it.
unfoldable pub parse_dispatch_group :
    List ℕ → List ℕ → List ℕ → List CapturedParam → Result (List ℕ × List ℕ) (List GroupError)
unfolding group_loop finish
parse_dispatch_group types consts assigned [] = err (empty_group ∷ [])
parse_dispatch_group types consts assigned (param ∷ params) =
    let s =
      group_loop types consts (param ∷ params)
        (record { assigned = assigned; group = []; errors = [] }) in
    finish s.errors (s.group, s.assigned)

-- `Ord` and `Eq` of the keys.
unfoldable pub key_lt : List ℕ → List ℕ → Bool
key_lt [] [] = false
key_lt [] (b ∷ ys) = true
key_lt (a ∷ xs) [] = false
key_lt (a ∷ xs) (b ∷ ys) = ltb a b || (a == b && key_lt xs ys)

unfoldable pub key_eq : List ℕ → List ℕ → Bool
key_eq [] [] = true
key_eq (a ∷ xs) (b ∷ ys) = a == b && key_eq xs ys
key_eq _ _ = false

-- The map `groups`, as its sorted list.
abbrev pub Groups {τ} : Type τ → Type τ
Groups A = List (List ℕ × List (List (GenericArgument A)))

module _ {τ} {A : Type τ} where
  -- `groups.insert`.
  unfoldable pub insert_group : List ℕ → List (List (GenericArgument A)) → Groups A → Groups A
  unfolding key_lt key_eq
  insert_group group targets [] = (group, targets) ∷ []
  insert_group group targets ((g, ts) ∷ groups) =
      let rest = insert_group group targets groups in
      if key_eq g group
      then (g, targets) ∷ groups
      else if key_lt group g
      then (group, targets) ∷ (g, ts) ∷ groups
      else (g, ts) ∷ rest

  -- The loop of `parse_dispatch_groups`.
  unfoldable pub groups_loop :
      List ℕ → List ℕ → List ℕ → Groups A → List (Entry A) → Result (Groups A) (List GroupError)
  unfolding parse_dispatch_group insert_group
  groups_loop types consts assigned groups [] = ok groups
  groups_loop types consts assigned groups (malformed ∷ entries) = err (parse_error ∷ [])
  groups_loop types consts assigned groups (entry params targets ∷ entries) =
      and_then (parse_dispatch_group types consts assigned params) (λ (group, assigned').
        groups_loop types consts assigned' (insert_group group targets groups) entries)

  -- `parse_dispatch_groups`.
  unfoldable pub parse_dispatch_groups :
      List GenericParam → List (Entry A) → Result (Groups A) (List GroupError)
  unfolding groups_loop declared_types declared_consts
  parse_dispatch_groups generics entries =
      groups_loop (declared_types generics) (declared_consts generics) [] [] entries
