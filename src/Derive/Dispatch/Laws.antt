-- ===== src/Derive/Dispatch/Laws.antt =====
-- The selections are the product of the groups.
use co.Prelude.{
  ℕ, ◌*◌, List, [], ◌∷◌, ◌++◌, map, length, length-append, length-map, map-append, append_nil,
  append_assoc, append_cong, cons_cong, ◌≡◌, ◌∙◌, sym, ap, refl,
}
use native.Mathlib.Nat.{suc-mul, zero-mul, add_comm}
use co.Derive.Dispatch.{DispatchSelection, visit, visit_targets, for_each_combination}

module _ {π τ} {P : Type π} {T : Type τ} where
  -- Every target of one group in front of every selection of the others.
  unfoldable pub each_target :
      P → List T → List (List (DispatchSelection P T)) → List (List (DispatchSelection P T))
  each_target params [] rest = []
  each_target params (target ∷ targets) rest =
      map (λ s. record { params = params; target = target } ∷ s) rest
      ++ each_target params targets rest

  -- The product of the groups, the last one varying fastest.
  unfoldable pub selections_of : List (P × List T) → List (List (DispatchSelection P T))
  selections_of [] = [] ∷ []
  selections_of ((params, targets) ∷ groups) = each_target params targets (selections_of groups)

  unfoldable pub product : List (P × List T) → ℕ
  product [] = 1
  product ((params, targets) ∷ groups) = length targets * product groups

  map_compose :
      (s : List (DispatchSelection P T)) (d : DispatchSelection P T)
      (rest : List (List (DispatchSelection P T)))
      → map (λ r. (s ++ (d ∷ [])) ++ r) rest ≡ map (λ r. s ++ r) (map (λ r. d ∷ r) rest)
  map_compose s d [] = refl
  map_compose s d (r ∷ rest) = cons_cong (append_assoc s (d ∷ []) r) (map_compose s d rest)

  map_nil : (rest : List (List (DispatchSelection P T))) → map (λ r. [] ++ r) rest ≡ rest
  map_nil [] = refl
  map_nil (r ∷ rest) = cons_cong refl (map_nil rest)

  visit_targets_lem :
      (next : List (DispatchSelection P T) → List (List (DispatchSelection P T)))
      (rest : List (List (DispatchSelection P T)))
      (next_lem : (s : List (DispatchSelection P T)) → next s ≡ map (λ r. s ++ r) rest) (params : P)
      (targets : List T) (s : List (DispatchSelection P T))
      → visit_targets next params targets s ≡ map (λ r. s ++ r) (each_target params targets rest)
  unfolding visit_targets each_target
  visit_targets_lem next rest next_lem params [] s = refl
  visit_targets_lem next rest next_lem params (target ∷ targets) s =
      let d : DispatchSelection P T = record { params = params; target = target } in
      append_cong (next_lem (s ++ (d ∷ [])) ∙ map_compose s d rest)
        (visit_targets_lem next rest next_lem params targets s)
      ∙ sym (map-append (λ r. s ++ r) (map (λ r. d ∷ r) rest) (each_target params targets rest))

  visit_lem :
      (groups : List (P × List T)) (s : List (DispatchSelection P T))
      → visit groups s ≡ map (λ r. s ++ r) (selections_of groups)
  unfolding visit selections_of
  visit_lem [] s = cons_cong (sym (append_nil s)) refl
  visit_lem ((params, targets) ∷ groups) s =
      visit_targets_lem (visit groups) (selections_of groups) (visit_lem groups) params targets s

  length-each_target :
      (params : P) (targets : List T) (rest : List (List (DispatchSelection P T)))
      → length (each_target params targets rest) ≡ length targets * length rest
  unfolding each_target
  length-each_target params [] rest = sym (zero-mul (length rest))
  length-each_target params (target ∷ targets) rest =
      let d : DispatchSelection P T = record { params = params; target = target } in
      length-append (map (λ s. d ∷ s) rest) (each_target params targets rest)
      ∙ (rw (length-map (λ s. d ∷ s) rest, length-each_target params targets rest)
          (sym (suc-mul (length targets) (length rest) ∙ add_comm _ _)))

  length-selections_of :
      (groups : List (P × List T)) → length (selections_of groups) ≡ product groups
  unfolding selections_of product
  length-selections_of [] = refl
  length-selections_of ((params, targets) ∷ groups) =
      length-each_target params targets (selections_of groups)
      ∙ ap (λ n. length targets * n) (length-selections_of groups)

  -- The callback runs on the product of the groups, in order: once for each way to choose a target
  -- in every group.
  pub for_each_combination_lem :
      (groups : List (P × List T))
      → (for_each_combination groups ≡ selections_of groups)
        × (length (for_each_combination groups) ≡ product groups)
  unfolding for_each_combination
  for_each_combination_lem groups =
      let same = visit_lem groups [] ∙ map_nil (selections_of groups) in
      (same, ap length same ∙ length-selections_of groups)
