-- ===== src/Derive/Groups/Kinds.antt =====
-- What the selections of an accepted `erased` attribute substitute.
use co.Prelude.{
  append_empty, ℕ, Bool, true, ◌&&◌, List, [], ◌∷◌, ◌++◌, map, All, length, ◌==◌, ==_iff, ok,
  and_then-ok, ok_inj, ◌≡◌, ◌∙◌, refl, sym, ap, arith, inl, inr, Bool-cases, cons_cong, append_cong,
  ◌≤◌,
}
use mathlib.Core.Path.{subst}
use co.Derive.Dispatch.{DispatchSelection, for_each_combination}
use co.Derive.Dispatch.Laws.{each_target, selections_of, for_each_combination_lem}
use co.Derive.Groups.{
  GenericParam, type_param, const_param, lifetime_param, GenericArgument, type_argument,
  const_argument, other_argument, DispatchAttr, other_attr, erased_path, erased_list, GroupError,
  finish, Groups, parse_dispatch_groups,
}
use co.Derive.Groups.Targets.{
  is_substituted, matches_kind, matches_parameter_kind, kind_errors, target_errors, group_errors,
  all_group_errors, validate_dispatch_targets, erased_attrs, parse_erased, parse_dispatch_attr,
  zip_arguments, substitutions, for_substitutions, for_dispatch_group,
}
use co.Derive.Groups.Assigned.{count, keys, parse_dispatch_groups-count}

finish_none {ℓ} :
    {A : Type ℓ} (es : List GroupError) (a b : A) (done : finish es a ≡ ok b) → es ≡ []
unfolding finish
finish_none [] a b done = refl
finish_none (e ∷ es) a b done = cc

All-append {κ} :
    {B : Type κ} (P : B → Type 0) (xs ys : List B) (left : All P xs) (right : All P ys)
    → All P (xs ++ ys)
All-append P [] ys left right = right
All-append P (x ∷ xs) ys (p, left) right = (p, All-append P xs ys left right)

module _ {τ} {A : Type τ} where
  -- Whether every parameter has an argument of its own kind.
  unfoldable pub all_match : List GenericParam → List (ℕ × GenericArgument A) → Bool
  all_match generics [] = true
  all_match generics ((param, arg) ∷ pairs) =
      matches_parameter_kind generics param arg && all_match generics pairs

  abbrev pub params_of : List (ℕ × GenericArgument A) → List ℕ
  params_of [] = []
  params_of ((param, arg) ∷ pairs) = param ∷ params_of pairs

  params_of-append :
      (xs ys : List (ℕ × GenericArgument A)) → params_of (xs ++ ys) ≡ params_of xs ++ params_of ys
  params_of-append [] ys = refl
  params_of-append ((param, arg) ∷ xs) ys = cons_cong refl (params_of-append xs ys)

  all_match-append :
      (generics : List GenericParam) (xs ys : List (ℕ × GenericArgument A))
      (left : all_match generics xs ≡ true) (right : all_match generics ys ≡ true)
      → all_match generics (xs ++ ys) ≡ true
  unfolding all_match
  all_match-append generics [] ys left right = right
  all_match-append generics ((param, arg) ∷ xs) ys left right =
      ground (arith, left, all_match-append generics xs ys)

  matches-is_substituted :
      (generics : List GenericParam) (param : ℕ) (arg : GenericArgument A)
      (kind : matches_parameter_kind generics param arg ≡ true)
      → is_substituted generics param ≡ true
  unfolding matches_parameter_kind matches_kind is_substituted
  matches-is_substituted [] param arg kind = kind
  matches-is_substituted (type_param i ∷ generics) param (type_argument a) kind =
      ground (arith, kind, matches-is_substituted generics param (type_argument a))
  matches-is_substituted (type_param i ∷ generics) param (const_argument a) kind =
      ground (arith, kind, matches-is_substituted generics param (const_argument a))
  matches-is_substituted (type_param i ∷ generics) param (other_argument a) kind =
      ground (arith, kind, matches-is_substituted generics param (other_argument a))
  matches-is_substituted (const_param i ∷ generics) param (type_argument a) kind =
      ground (arith, kind, matches-is_substituted generics param (type_argument a))
  matches-is_substituted (const_param i ∷ generics) param (const_argument a) kind =
      ground (arith, kind, matches-is_substituted generics param (const_argument a))
  matches-is_substituted (const_param i ∷ generics) param (other_argument a) kind =
      ground (arith, kind, matches-is_substituted generics param (other_argument a))
  matches-is_substituted (lifetime_param i ∷ generics) param arg kind =
      matches-is_substituted generics param arg kind

  for_substitutions-all :
      (generics : List GenericParam) (pairs : List (ℕ × GenericArgument A))
      (kinds : all_match generics pairs ≡ true)
      → for_substitutions generics pairs ≡ pairs
  unfolding for_substitutions all_match
  for_substitutions-all generics [] kinds = refl
  for_substitutions-all generics ((param, arg) ∷ pairs) kinds =
      let kept : is_substituted generics param ≡ true =
        matches-is_substituted generics param arg (ground (arith, kinds)) in
      let rest = for_substitutions-all generics pairs (ground (arith, kinds)) in
      rw (kept) (cons_cong refl rest)

  -- That selections substitute the parameters of `groups`, in order, each by an argument of its kind.
  abbrev Fits :
      List GenericParam
      → Groups A
      → List (DispatchSelection (List ℕ) (List (GenericArgument A)))
      → Type 0
  Fits generics groups selections =
      (params_of (substitutions selections) ≡ keys groups)
      × (all_match generics (substitutions selections) ≡ true)

  zip-Fits :
      (generics : List GenericParam) (group : List ℕ) (target : List (GenericArgument A))
      (same : length target ≡ length group) (kinds : kind_errors generics group target ≡ [])
      → (params_of (zip_arguments group target) ≡ group)
        × (all_match generics (zip_arguments group target) ≡ true)
  unfolding zip_arguments all_match kind_errors
  zip-Fits generics [] target same kinds = (refl, refl)
  zip-Fits generics (param ∷ group) [] same kinds = ground (arith, same)
  zip-Fits generics (param ∷ group) (arg ∷ args) same kinds =
      elim (Bool-cases (matches_parameter_kind generics param arg)) [
        | inl kind ↦
            (let (fst, snd) =
                zip-Fits generics group args (ground (arith, same))
                  (sym (rw (kind) refl) ∙ kinds) in
              (cons_cong refl fst, rw (kind) snd))
        | inr other ↦ ground (arith, kinds, other)
      ]

  target-Fits :
      (generics : List GenericParam) (group : List ℕ) (target : List (GenericArgument A))
      (targets : List (List (GenericArgument A)))
      (fine : target_errors generics group (target ∷ targets) ≡ [])
      → ((params_of (zip_arguments group target) ≡ group)
          × (all_match generics (zip_arguments group target) ≡ true))
        × (target_errors generics group targets ≡ [])
  unfolding target_errors
  target-Fits generics group target targets fine =
      let (here, rest) = append_empty _ (target_errors generics group targets) fine in
      elim (Bool-cases (length target == length group)) [
        | inl same ↦ (
          zip-Fits generics group target ((==_iff _ _).0 same) (sym (rw (same) refl) ∙ here),
          rest,
        )
        | inr differs ↦ ground (arith, here, differs)
      ]

  -- One target in front of the selections of the other groups.
  cons-Fits :
      (generics : List GenericParam) (group : List ℕ) (target : List (GenericArgument A))
      (targets : List (List (GenericArgument A))) (groups : Groups A)
      (here : (params_of (zip_arguments group target) ≡ group)
        × (all_match generics (zip_arguments group target) ≡ true))
      (rest : List (List (DispatchSelection (List ℕ) (List (GenericArgument A)))))
      (fits : All (Fits generics groups) rest)
      → All
          (Fits generics ((group, targets) ∷ groups))
          (map (λ s. record { params = group; target = target } ∷ s) rest)
  unfolding substitutions
  cons-Fits generics group target targets groups here [] fits = tt
  cons-Fits generics group target targets groups here (s ∷ rest) ((first, kinds), fits) =
      let pairs = zip_arguments group target in
      (
        (
          params_of-append pairs (substitutions s) ∙ append_cong here.0 first,
          all_match-append generics pairs (substitutions s) here.1 kinds,
        ),
        cons-Fits generics group target targets groups here rest fits,
      )

  each-Fits :
      (generics : List GenericParam) (group : List ℕ)
      (listed targets : List (List (GenericArgument A))) (groups : Groups A)
      (fine : target_errors generics group targets ≡ [])
      (rest : List (List (DispatchSelection (List ℕ) (List (GenericArgument A)))))
      (fits : All (Fits generics groups) rest)
      → All (Fits generics ((group, listed) ∷ groups)) (each_target group targets rest)
  unfolding each_target
  each-Fits generics group listed [] groups fine rest fits = tt
  each-Fits generics group listed (target ∷ targets) groups fine rest fits =
      let (here, later) = target-Fits generics group target targets fine in
      All-append _ (map (λ s. record { params = group; target = target } ∷ s) rest) _
        (cons-Fits generics group target listed groups here rest fits)
        (each-Fits generics group listed targets groups later rest fits)

  fine_targets :
      (generics : List GenericParam) (group : List ℕ) (targets : List (List (GenericArgument A)))
      (fine : group_errors generics group targets ≡ [])
      → target_errors generics group targets ≡ []
  unfolding group_errors
  fine_targets generics group [] fine = cc
  fine_targets generics group (target ∷ targets) fine = fine

  selections-Fits :
      (generics : List GenericParam) (groups : Groups A)
      (fine : all_group_errors generics groups ≡ [])
      → All (Fits generics groups) (selections_of groups)
  unfolding selections_of all_group_errors substitutions all_match
  selections-Fits generics [] fine = ((refl, refl), tt)
  selections-Fits generics ((group, targets) ∷ groups) fine =
      let (here, rest) =
        append_empty (group_errors generics group targets) (all_group_errors generics groups)
          fine in
      each-Fits generics group targets targets groups (fine_targets generics group targets here)
        (selections_of groups) (selections-Fits generics groups rest)

  -- That `for_dispatch_group` keeps the whole substitution.
  abbrev pub IsTyped :
      List GenericParam
      → Groups A
      → List (DispatchSelection (List ℕ) (List (GenericArgument A)))
      → Type 0
  IsTyped generics groups selections =
      (params_of (for_dispatch_group generics selections) ≡ keys groups)
      × (all_match generics (for_dispatch_group generics selections) ≡ true)

  Fits→IsTyped :
      (generics : List GenericParam) (groups : Groups A)
      (rest : List (List (DispatchSelection (List ℕ) (List (GenericArgument A)))))
      (fits : All (Fits generics groups) rest)
      → All (IsTyped generics groups) rest
  unfolding for_dispatch_group
  Fits→IsTyped generics groups [] fits = tt
  Fits→IsTyped generics groups (s ∷ rest) ((first, kinds), fits) =
      let same = for_substitutions-all generics (substitutions s) kinds in
      (
        (ap params_of same ∙ first, ap (all_match generics) same ∙ kinds),
        Fits→IsTyped generics groups rest fits,
      )

  erased-fine :
      (generics : List GenericParam) (attrs : List (DispatchAttr A)) (groups : Groups A)
      (accepted : parse_erased generics attrs ≡ ok groups) (a : ℕ)
      → (all_group_errors generics groups ≡ []) × (count a (keys groups) ≤ 1)
  unfolding parse_erased validate_dispatch_targets all_group_errors count
  erased-fine generics [] groups accepted a =
      let same = ok_inj accepted in
      (ap (all_group_errors generics) (sym same), ground (arith, ap (λ g. count a (keys g)) same))
  erased-fine generics (attr ∷ duplicate ∷ attrs) groups accepted a = cc
  erased-fine generics (other_attr ∷ []) groups accepted a = cc
  erased-fine generics (erased_path ∷ []) groups accepted a = cc
  erased-fine generics (erased_list entries ∷ []) groups accepted a =
      let (parsed, e, later) =
        and_then-ok (parse_dispatch_groups generics entries) _ groups accepted in
      let (u, fine, done) =
        and_then-ok (validate_dispatch_targets generics parsed) _ groups later in
      let same = ok_inj done in
      (
        ap (all_group_errors generics) (sym same)
            ∙ finish_none (all_group_errors generics parsed) tt u fine,
        parse_dispatch_groups-count a generics entries groups (e ∙ ap ok same),
      )

  -- For an `erased` attribute that is accepted, each combination of targets substitutes the parameters
  -- of the groups, in order and none left out, each by an argument of its kind: a type parameter by a
  -- type, a constant parameter by an expression. No parameter is substituted twice.
  pub parse_dispatch_attr_kinds :
      (generics : List GenericParam) (attrs : List (DispatchAttr A)) (groups : Groups A)
      (accepted : parse_dispatch_attr generics attrs ≡ ok groups) (a : ℕ)
      → All (IsTyped generics groups) (for_each_combination groups) × (count a (keys groups) ≤ 1)
  unfolding parse_dispatch_attr
  parse_dispatch_attr_kinds generics attrs groups accepted a =
      let (fine, once) = erased-fine generics (erased_attrs attrs) groups accepted a in
      let typed =
        Fits→IsTyped generics groups (selections_of groups)
          (selections-Fits generics groups fine) in
      (
        subst (λ all. All (IsTyped generics groups) all) (sym (for_each_combination_lem groups).0)
            typed,
        once,
      )
