-- ===== src/Derive/Cycles.antt =====
-- `validate_dispatch_cycles` of derive/src/parse.rs: a dispatch parameter may be selected by a type that
-- mentions other parameters, but not in a circle. An identifier is its rank in the order of
-- identifiers.
pub mod Laws
pub mod Graph
pub mod Accepts
use co.Prelude.{
  ℕ, zero, suc, Bool, true, false, not, ◌||◌, ◌&&◌, Option, none, some, List, [], ◌∷◌, ◌++◌, length,
  contains, filter, extend, ◌==◌, if◌then◌else◌, Result, ok, err,
}
use co.Derive.Dispatch.{DispatchSelection, for_each_combination}

-- `dependencies`: the parameters of the map, and the set of each.
pub record Dependencies : Type 0 where
  pub params : List ℕ
  pub on : ℕ → List ℕ

-- `BTreeSet::is_empty`.
unfoldable pub is_nil : List ℕ → Bool
is_nil [] = true
is_nil (x ∷ xs) = false

-- `resolved`: the parameters that depend on nothing.
unfoldable pub resolved_of : Dependencies → List ℕ
unfolding is_nil
resolved_of d = filter (λ p. is_nil (d.on p)) d.params

-- `dependencies.remove` and `retain` for the resolved parameters.
unfoldable pub remove_resolved : Dependencies → List ℕ → Dependencies
remove_resolved d resolved = record {
  params = filter (λ p. not (contains resolved p)) d.params;
  on = λ p. filter (λ q. not (contains resolved q)) (d.on p);
}

-- A round of the loop, which ends where nothing was resolved.
unfoldable pub resolve_round : (Dependencies → Dependencies) → Dependencies → List ℕ → Dependencies
unfolding remove_resolved
resolve_round next d [] = d
resolve_round next d (p ∷ ps) = next (remove_resolved d (p ∷ ps))

unfoldable pub resolve_loop : ℕ → Dependencies → Dependencies
unfolding resolve_round resolved_of
resolve_loop zero d = d
resolve_loop (suc fuel) d = resolve_round (resolve_loop fuel) d (resolved_of d)

-- The loop: each round but the last removes a parameter.
unfoldable pub resolve : Dependencies → Dependencies
unfolding resolve_loop
resolve d = resolve_loop (length d.params) d

-- `get_mut(param)` and `extend`.
unfoldable pub extend_on : (ℕ → List ℕ) → ℕ → List ℕ → ℕ → List ℕ
extend_on on param more p = if p == param then extend (on p) more else on p

-- `dependencies.into_iter().next()`.
unfoldable pub first_left : List ℕ → Option ℕ
first_left [] = none
first_left (param ∷ params) = some param

-- `errors.is_some()`, and the callback behind it.
unfoldable pub or_else : Option ℕ → Option ℕ → Option ℕ
or_else none later = later
or_else (some param) later = some param

-- `errors.map_or(Ok(()), Err)`.
unfoldable pub map_or_ok : Option ℕ → Result (Unit {0}) ℕ
map_or_ok none = ok tt
map_or_ok (some param) = err param

abbrev pub Selection {τ} : Type τ → Type τ
Selection T = DispatchSelection (List ℕ) (List T)

module _ {τ} {T : Type τ} (mentions_param : T → ℕ → Bool) (uses_self : T → Bool)
    (self_ty : Option (ℕ → Bool)) where
  self_mentions : Option (ℕ → Bool) → T → ℕ → Bool
  self_mentions none target param = false
  self_mentions (some type_mentions_param) target param =
      uses_self target && type_mentions_param param

  -- `dispatch_target_mentions_param`, with the visitors of syn's trees as parameters.
  unfoldable pub dispatch_target_mentions_param : T → ℕ → Bool
  unfolding self_mentions
  dispatch_target_mentions_param target param =
      mentions_param target param || self_mentions self_ty target param

  -- `params`.
  unfoldable pub params_of : List ℕ → List (Selection T) → List ℕ
  params_of set [] = set
  params_of set (selection ∷ selections) = params_of (extend set selection.params) selections

  -- The loop over the parameters of a selection with their arguments.
  unfoldable pub depend : List ℕ → List ℕ → List T → (ℕ → List ℕ) → ℕ → List ℕ
  unfolding extend_on dispatch_target_mentions_param
  depend params (param ∷ rest) (target ∷ args) on =
      depend params rest args
        (extend_on on param (filter (dispatch_target_mentions_param target) params))
  depend params _ _ on = on

  -- The loop over the selections.
  unfoldable pub depend_all : List ℕ → List (Selection T) → (ℕ → List ℕ) → ℕ → List ℕ
  unfolding depend
  depend_all params [] on = on
  depend_all params (selection ∷ selections) on =
      depend_all params selections (depend params selection.params selection.target on)

  unfoldable pub dependencies_of : List (Selection T) → Dependencies
  unfolding params_of depend_all
  dependencies_of selections =
      let params = params_of [] selections in
      record { params = params; on = depend_all params selections (λ p. []) }

  -- What the callback does for one combination.
  unfoldable pub check_selections : List (Selection T) → Option ℕ
  unfolding resolve dependencies_of first_left
  check_selections selections = first_left (resolve (dependencies_of selections)).params

  -- The first error: the callback returns where there is one.
  unfoldable pub first_error : List (List (Selection T)) → Option ℕ
  unfolding check_selections or_else
  first_error [] = none
  first_error (selections ∷ rest) = or_else (check_selections selections) (first_error rest)

  -- `validate_dispatch_cycles`: the error names a parameter.
  unfoldable pub validate_dispatch_cycles : List (List ℕ × List (List T)) → Result (Unit {0}) ℕ
  unfolding first_error map_or_ok
  validate_dispatch_cycles groups = map_or_ok (first_error (for_each_combination groups))
