-- ===== src/Tests/Symbols.antt =====
-- The names of linker symbols, at concrete inputs.
use co.Prelude.{true, false, List, [], ◌∷◌, ok, ◌≡◌, ◌≢◌, ◌↔◌, refl}
use co.Derive.SymbolText.{
  Text, not_once, not_static, member, validate_symbol_text, validate_static_symbol_interpolations,
  interpolate_symbol,
}
use co.Derive.SymbolText.Laws.{Segment, print, is_template, validate_symbol_text_iff}
use co.Derive.SymbolText.Filled.{idents, is_substitution, interpolate_symbol_valid}

-- `f_{T}_g`.
abbrev name : Text
name = b'f' ∷ b'_' ∷ b'{' ∷ b'T' ∷ b'}' ∷ b'_' ∷ b'g' ∷ []

abbrev type_param : Text
type_param = b'T' ∷ []

-- `u8` for `T`.
abbrev subst : List (Text × Text)
subst = (type_param, b'u' ∷ b'8' ∷ []) ∷ []

validate_symbol_text_iff_example : (validate_symbol_text name true ≡ ok tt) ↔ (
    (name ≢ [])
    × ((segments : List Segment) × (print segments ≡ name) × (is_template segments ≡ true)))
validate_symbol_text_iff_example = validate_symbol_text_iff name

covers_all : (n : Text) → member n (type_param ∷ []) ≡ true → member n (idents subst) ≡ true
unfolding member idents
covers_all n there = there

interpolate_symbol_valid_example :
    validate_symbol_text (interpolate_symbol subst name) false ≡ ok tt
unfolding validate_symbol_text validate_static_symbol_interpolations is_substitution
interpolate_symbol_valid_example =
    interpolate_symbol_valid name (type_param ∷ []) subst refl refl covers_all refl

-- `f_u8_g`.
interpolated : interpolate_symbol subst name ≡ b'f' ∷ b'_' ∷ b'u' ∷ b'8' ∷ b'_' ∷ b'g' ∷ []
unfolding interpolate_symbol
interpolated = refl

-- A parameter that is not interpolated, and a name that is not a parameter.
reported :
    validate_static_symbol_interpolations name ((b'U' ∷ []) ∷ [])
    ≡ not_static type_param ∷ not_once (b'U' ∷ []) ∷ []
unfolding validate_static_symbol_interpolations
reported = refl
