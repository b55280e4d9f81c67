-- ===== src/Derive/Cycles/Graph.antt =====
-- The dependencies that `validate_dispatch_cycles` collects, described without its maps.
use co.Prelude.{
  ℕ, Bool, false, ◌&&◌, ◌||◌, ◌==◌, Option, none, some, List, [], ◌∷◌, contains, filter, extend,
  contains-filter, contains-extend, ◌≡◌, refl, arith,
}
use co.Derive.Cycles.{
  Selection, extend_on, dispatch_target_mentions_param, params_of, depend, depend_all,
  dependencies_of,
}

module _ {τ} {T : Type τ} where
  -- Whether a parameter is selected by one of the selections.
  unfoldable pub is_param : List (Selection T) → ℕ → Bool
  is_param [] p = false
  is_param (selection ∷ selections) p = contains selection.params p || is_param selections p

module _ {τ} {T : Type τ} (mentions_param : T → ℕ → Bool) (uses_self : T → Bool)
    (self_ty : Option (ℕ → Bool)) where
  -- Whether a target names a parameter, itself or by `Self`, where there is a type for it.
  unfoldable pub names : Option (ℕ → Bool) → T → ℕ → Bool
  names none target q = mentions_param target q
  names (some self_names) target q = mentions_param target q || (uses_self target && self_names q)

  unfoldable pub pair_depends : List ℕ → List T → ℕ → ℕ → Bool
  unfolding names
  pair_depends (param ∷ rest) (target ∷ args) p q =
      (p == param && names self_ty target q) || pair_depends rest args p q
  pair_depends _ _ p q = false

  -- Whether a parameter is selected by a target that names another one.
  unfoldable pub depends : List (Selection T) → ℕ → ℕ → Bool
  unfolding pair_depends
  depends [] p q = false
  depends (selection ∷ selections) p q =
      pair_depends selection.params selection.target p q || depends selections p q

  names_lem :
      (self : Option (ℕ → Bool)) (target : T) (q : ℕ)
      → dispatch_target_mentions_param mentions_param uses_self self target q ≡ names self target q
  unfolding dispatch_target_mentions_param names
  names_lem none target q = ground arith
  names_lem (some self_names) target q = refl

  params_of_lem :
      (set : List ℕ) (selections : List (Selection T)) (p : ℕ)
      → contains (params_of mentions_param uses_self self_ty set selections) p
        ≡ (contains set p || is_param selections p)
  unfolding params_of is_param
  params_of_lem set [] p = ground arith
  params_of_lem set (s ∷ selections) p =
      ground
        (arith, params_of_lem (extend set s.params) selections p, contains-extend set s.params p)

  depend_lem :
      (params rest : List ℕ) (args : List T) (on : ℕ → List ℕ) (p q : ℕ)
      → contains (depend mentions_param uses_self self_ty params rest args on p) q
        ≡ (contains (on p) q || (contains params q && pair_depends rest args p q))
  unfolding depend pair_depends extend_on
  depend_lem params [] args on p q = ground arith
  depend_lem params (param ∷ rest) [] on p q = ground arith
  depend_lem params (param ∷ rest) (target ∷ args) on p q =
      let keep = dispatch_target_mentions_param mentions_param uses_self self_ty target in
      let on' = extend_on on param (filter keep params) in
      ground (
        arith,
        depend_lem params rest args on' p q,
        contains-extend (on p) (filter keep params) q,
        contains-filter keep params q,
        names_lem self_ty target q,
      )

  depend_all_lem :
      (params : List ℕ) (selections : List (Selection T)) (on : ℕ → List ℕ) (p q : ℕ)
      → contains (depend_all mentions_param uses_self self_ty params selections on p) q
        ≡ (contains (on p) q || (contains params q && depends selections p q))
  unfolding depend_all depends
  depend_all_lem params [] on p q = ground arith
  depend_all_lem params (s ∷ selections) on p q =
      let on' = depend mentions_param uses_self self_ty params s.params s.target on in
      ground (
        arith,
        depend_all_lem params selections on' p q,
        depend_lem params s.params s.target on p q,
      )

  -- The graph has the selected parameters, and what they depend on among themselves.
  pub dependencies_of_lem :
      (selections : List (Selection T)) (p q : ℕ)
      → let d = dependencies_of mentions_param uses_self self_ty selections in
        (contains d.params p ≡ is_param selections p)
        × (contains (d.on p) q ≡ (is_param selections q && depends selections p q))
  unfolding dependencies_of
  dependencies_of_lem selections p q =
      let params = params_of mentions_param uses_self self_ty [] selections in
      (
        params_of_lem [] selections p,
        ground
            (arith, depend_all_lem params selections (λ p. []) p q, params_of_lem [] selections q),
      )
