-- ===== src/Derive/Cycles/Accepts.antt =====
-- `validate_dispatch_cycles` accepts exactly the groups without a circle.
use co.Prelude.{
  ℕ, suc, ◌<◌, ◌∙◌, sym, Bool, true, Option, none, some, List, [], ◌∷◌, contains, filter,
  contains-filter, contains-extend, get_elem?, All, Result, ok, err, ◌≡◌, refl, arith, inl, inr,
  ◌⊎◌,
}
use co.Derive.Dispatch.{for_each_combination}
use co.Derive.Cycles.{
  Selection, Dependencies, resolve, dispatch_target_mentions_param, params_of, extend_on, depend,
  depend_all, dependencies_of, first_left, check_selections, or_else, first_error, map_or_ok,
  validate_dispatch_cycles,
}
use co.Derive.Cycles.Graph.{is_param, depends, dependencies_of_lem}
use co.Derive.Cycles.Laws.{IsClosed, IsRanked, IsTrap, Outcome, resolve-Outcome}

-- Only members of `params` are recorded.
abbrev IsWithin : List ℕ → (ℕ → List ℕ) → Type 0
IsWithin params on = (p q : ℕ) → contains (on p) q ≡ true → contains params q ≡ true

extend_on-IsWithin :
    (params : List ℕ) (on : ℕ → List ℕ) (param : ℕ) (keep : ℕ → Bool) (within : IsWithin params on)
    → IsWithin params (extend_on on param (filter keep params))
unfolding extend_on
extend_on-IsWithin params on param keep within = λ p q dep. ground (
  arith,
  contains-extend (on p) (filter keep params) q,
  contains-filter keep params q,
  within p q,
)

module _ {T : Type 0} (mentions_param : T → ℕ → Bool) (uses_self : T → Bool)
    (self_ty : Option (ℕ → Bool)) where
  depend-IsWithin :
      (params rest : List ℕ) (args : List T) (on : ℕ → List ℕ) (within : IsWithin params on)
      → IsWithin params (depend mentions_param uses_self self_ty params rest args on)
  unfolding depend
  depend-IsWithin params [] args on within = within
  depend-IsWithin params (p ∷ rest) [] on within = within
  depend-IsWithin params (p ∷ rest) (target ∷ args) on within = depend-IsWithin params rest args _ (
      extend_on-IsWithin params on p
        (dispatch_target_mentions_param mentions_param uses_self self_ty target) within)

  depend_all-IsWithin :
      (params : List ℕ) (selections : List (Selection T)) (on : ℕ → List ℕ)
      (within : IsWithin params on)
      → IsWithin params (depend_all mentions_param uses_self self_ty params selections on)
  unfolding depend_all
  depend_all-IsWithin params [] on within = within
  depend_all-IsWithin params (s ∷ selections) on within =
      depend_all-IsWithin params selections _ (depend-IsWithin params s.params s.target on within)

  abbrev pub Graph : List (Selection T) → Dependencies
  Graph selections = dependencies_of mentions_param uses_self self_ty selections

  dependencies_of-IsClosed : (selections : List (Selection T)) → IsClosed (Graph selections)
  unfolding dependencies_of
  dependencies_of-IsClosed selections = λ p q mem dep.
      depend_all-IsWithin (params_of mentions_param uses_self self_ty [] selections) selections
        (λ p. []) (λ p q none. cc) p q dep

  -- An order of the selected parameters in which each stands behind those that its target names.
  abbrev pub IsAcyclic : List (Selection T) → Type 0
  IsAcyclic selections =
      (rank : ℕ → ℕ) × ((p q : ℕ)
        → is_param selections p ≡ true
        → is_param selections q ≡ true
        → depends mentions_param uses_self self_ty selections p q ≡ true
        → rank q < rank p)

  -- Selected parameters, `p` among them, of which each has a target that names one of them.
  abbrev pub IsCyclicAt : ℕ → List (Selection T) → Type 0
  IsCyclicAt p selections =
      (trap : List ℕ) × (contains trap p ≡ true)
      × ((r : ℕ)
          → contains trap r ≡ true
          → (is_param selections r ≡ true)
            × ((q : ℕ) × (depends mentions_param uses_self self_ty selections r q ≡ true)
                × (contains trap q ≡ true)))

  ranked-IsAcyclic :
      (selections : List (Selection T)) (rank : ℕ → ℕ) (ranked : IsRanked (Graph selections) rank)
      → IsAcyclic selections
  ranked-IsAcyclic selections rank ranked = (
    rank,
    λ p q param_p param_q dep.
        let (params, on) = dependencies_of_lem mentions_param uses_self self_ty selections p q in
        ranked p q (params ∙ param_p) (on ∙ rw (param_q, dep) refl),
  )

  trapped-IsCyclicAt :
      (selections : List (Selection T)) (p : ℕ) (trap : List ℕ) (mem : contains trap p ≡ true)
      (trapped : IsTrap (Graph selections) trap)
      → IsCyclicAt p selections
  trapped-IsCyclicAt selections p trap mem trapped = (
    trap,
    mem,
    λ r inside.
        let (param, step) = trapped r inside in
        let (q, dep, again) = step in
        let (params, on) = dependencies_of_lem mentions_param uses_self self_ty selections r q in
        let both = sym on ∙ dep in (sym params ∙ param, (q, ground (arith, both), again)),
  )

  abbrev Verdict : List (Selection T) → Option ℕ → Type 0
  Verdict selections none = IsAcyclic selections
  Verdict selections (some p) = IsCyclicAt p selections

  check_selections-Verdict :
      (selections : List (Selection T))
      → Verdict selections (check_selections mentions_param uses_self self_ty selections)
  unfolding check_selections first_left
  check_selections-Verdict selections =
      verdict (resolve (Graph selections)).params
        (resolve-Outcome (Graph selections) (dependencies_of-IsClosed selections))
    where
      verdict :
          (left : List ℕ) → Outcome (Graph selections) left → Verdict selections (first_left left)
      verdict [] (inl (empty, (rank, ranked))) = ranked-IsAcyclic selections rank ranked
      verdict [] (inr (p, mem, trapped)) = absurd (ground arith)
      verdict (p ∷ ps) (inl (empty, ranked)) = absurd (ground arith)
      verdict (p ∷ ps) (inr (q, mem, trapped)) =
          trapped-IsCyclicAt selections p (p ∷ ps) (ground arith) trapped

  -- The first combination with a circle, if there is one.
  abbrev pub Verdicts : List (List (Selection T)) → Option ℕ → Type 0
  Verdicts combinations none = All IsAcyclic combinations
  Verdicts combinations (some p) =
      (i : ℕ) × (selections : List (Selection T)) × (get_elem? combinations i ≡ some selections)
      × IsCyclicAt p selections

  first_error-Verdicts :
      (combinations : List (List (Selection T)))
      → Verdicts combinations (first_error mentions_param uses_self self_ty combinations)
  unfolding first_error or_else
  first_error-Verdicts [] = tt
  first_error-Verdicts (selections ∷ rest) =
      verdicts (check_selections mentions_param uses_self self_ty selections)
        (first_error mentions_param uses_self self_ty rest) (check_selections-Verdict selections)
        (first_error-Verdicts rest)
    where
      verdicts :
          (here later : Option ℕ)
          → Verdict selections here
          → Verdicts rest later
          → Verdicts (selections ∷ rest) (or_else here later)
      verdicts (some p) later now _ = (0, selections, refl, now)
      verdicts none none now all = (now, all)
      verdicts none (some p) now (i, found, at, cyclic) = (suc i, found, at, cyclic)

  -- Either every combination of targets has an order of the selected parameters in which each stands
  -- behind those that its target names, itself or by `Self`, and the groups are accepted, or the error
  -- names a parameter of a set, in one combination, of which each has a target that names a member.
  pub validate_dispatch_cycles_lem :
      (groups : List (List ℕ × List (List T)))
      → ((validate_dispatch_cycles mentions_param uses_self self_ty groups ≡ ok tt)
          × All IsAcyclic (for_each_combination groups))
        ⊎ ((p : ℕ) × (validate_dispatch_cycles mentions_param uses_self self_ty groups ≡ err p)
            × (i : ℕ) × (selections : List (Selection T)) × (get_elem?
                  (for_each_combination groups)
                  i
                ≡ some selections)
            × IsCyclicAt p selections)
  unfolding validate_dispatch_cycles map_or_ok
  validate_dispatch_cycles_lem groups =
      answer (first_error mentions_param uses_self self_ty (for_each_combination groups))
        (first_error-Verdicts (for_each_combination groups))
    where
      answer :
          (found : Option ℕ)
          → Verdicts (for_each_combination groups) found
          → ((◌≡◌ {A = Result (Unit {0}) ℕ} (map_or_ok found) (ok tt))
              × All IsAcyclic (for_each_combination groups))
            ⊎ ((p : ℕ) × (◌≡◌ {A = Result (Unit {0}) ℕ} (map_or_ok found) (err p))
                × (i : ℕ) × (selections : List (Selection T)) × (get_elem?
                      (for_each_combination groups)
                      i
                    ≡ some selections)
                × IsCyclicAt p selections)
      answer none all = inl (refl, all)
      answer (some p) (i, selections, at, cyclic) = inr (p, refl, i, selections, at, cyclic)
