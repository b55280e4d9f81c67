-- ===== src/Derive/Dispatch.antt =====
-- `for_each_combination` of derive/src/lib.rs: the selections of one dispatch target for each group of
-- type parameters, for which the macro generates code.
pub mod Laws
use co.Prelude.{List, [], ◌∷◌, ◌++◌}

-- `struct DispatchSelection`.
pub record DispatchSelection {π τ} (P : Type π) (T : Type τ) : Type (π ⊔ τ) where
  pub params : P
  pub target : T

module _ {π τ} {P : Type π} {T : Type τ} where
  -- The loop of `visit`; `next` is `visit` on the other groups.
  unfoldable pub visit_targets :
      (List (DispatchSelection P T) → List (List (DispatchSelection P T)))
      → P
      → List T
      → List (DispatchSelection P T)
      → List (List (DispatchSelection P T))
  visit_targets next params [] selections = []
  visit_targets next params (target ∷ targets) selections =
      next (selections ++ (record { params = params; target = target } ∷ []))
      ++ visit_targets next params targets selections

  -- `visit`, as the list of the selections that the callback is called with.
  unfoldable pub visit :
      List (P × List T) → List (DispatchSelection P T) → List (List (DispatchSelection P T))
  unfolding visit_targets
  visit [] selections = selections ∷ []
  visit ((params, targets) ∷ groups) selections =
      visit_targets (visit groups) params targets selections

  -- `for_each_combination`.
  unfoldable pub for_each_combination : List (P × List T) → List (List (DispatchSelection P T))
  unfolding visit
  for_each_combination groups = visit groups []
