-- ===== src/Tests/Macros.antt =====
-- The expansion of conditional attributes and the search for dispatch cycles, at concrete inputs.
use Prim.Native.String.{String}
use text.Mathlib.Text.{◌==◌ as str_eq}
use co.Prelude.{
  ℕ, Bool, true, false, Option, none, some, List, [], ◌∷◌, Result, ok, err, if◌then◌else◌, ◌≡◌, ◌⊎◌,
  refl, All, get_elem?,
}
use co.Derive.Tokens.{group, ident, punct, bracket, parenthesis, stream}
use co.Derive.CfgTokens.{Tokens}
use co.Derive.CfgAttr.{
  Variant, CfgError, conditional_arguments, cfg_attr_arguments, expand, active_variants,
}
use co.Derive.CfgAttr.Laws.{Meaning, selected}
use co.Derive.CfgAttr.Meaning.{MeansInput}
use co.Derive.CfgAttr.Selects.{expand_selects}
use co.Derive.CfgAttr.Fuel.{expand_ends}
use co.Derive.Dispatch.{for_each_combination}
use co.Derive.Cycles.{Selection, validate_dispatch_cycles}
use co.Derive.Cycles.Accepts.{IsAcyclic, IsCyclicAt, validate_dispatch_cycles_lem}

-- A predicate of one name prints as the name.
abbrev name_of : Tokens → String
name_of (ident name ∷ rest) = name
name_of _ = ""

-- `#![cfg_attr(P, cfg(Q), custom)] body`.
abbrev attributes : Tokens
attributes =
    punct b'#'
    ∷ punct b'!'
    ∷ group bracket (
        stream (
          ident "cfg_attr"
          ∷ group parenthesis (
              stream (
                ident "P"
                ∷ punct b','
                ∷ ident "cfg"
                ∷ group parenthesis (stream (ident "Q" ∷ []))
                ∷ punct b','
                ∷ ident "custom"
                ∷ []))
          ∷ []))
    ∷ ident "body"
    ∷ []

-- `P` holds and nothing else.
abbrev only_p : String → Bool
only_p name = str_eq name "P"

abbrev variants_of : Result (List Variant) CfgError → List Variant
variants_of (ok vs) = vs
variants_of (err e) = []

abbrev expanded : List Variant
expanded = variants_of (expand name_of attributes)

expand_selects_example :
    (m : Meaning) × MeansInput name_of only_p attributes m
    × (selected name_of only_p expanded ≡ m ∷ [])
    × (selected name_of only_p (active_variants expanded) ≡ (if m.1 then m ∷ [] else []))
unfolding expand stream
expand_selects_example = expand_selects name_of only_p attributes expanded refl

expand_ends_example :
    ((vs : List Variant) × (expand name_of attributes ≡ ok vs))
    ⊎ ((expand name_of attributes ≡ err conditional_arguments)
        ⊎ (expand name_of attributes ≡ err cfg_attr_arguments))
expand_ends_example = expand_ends name_of attributes

-- A target mentions the parameters that it lists; `T` is selected by `U`, and `U` by `T` or by nothing.
abbrev listed : List ℕ → ℕ → Bool
listed target param = co.Prelude.contains target param

abbrev circle : List (List ℕ × List (List (List ℕ)))
circle = (0 ∷ [], ((1 ∷ []) ∷ []) ∷ []) ∷ (1 ∷ [], ([] ∷ []) ∷ ((0 ∷ []) ∷ []) ∷ []) ∷ []

validate_dispatch_cycles_lem_example :
    ((validate_dispatch_cycles listed (λ t. false) none circle ≡ ok tt)
      × All (IsAcyclic listed (λ t. false) none) (for_each_combination circle))
    ⊎ ((p : ℕ) × (validate_dispatch_cycles listed (λ t. false) none circle ≡ err p)
        × (i : ℕ) × (selections : List (Selection (List ℕ))) × (get_elem?
              (for_each_combination circle)
              i
            ≡ some selections)
        × IsCyclicAt listed (λ t. false) none p selections)
validate_dispatch_cycles_lem_example = validate_dispatch_cycles_lem listed (λ t. false) none circle

-- The circle is found in the second combination.
circle_found : validate_dispatch_cycles listed (λ t. false) none circle ≡ err 0
unfolding validate_dispatch_cycles for_each_combination
circle_found = refl
