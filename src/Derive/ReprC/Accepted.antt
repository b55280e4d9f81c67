-- ===== src/Derive/ReprC/Accepted.antt =====
-- What `derive_repr_c` has checked of an enum that it accepts.
use co.Prelude.{
  append_empty, is_some, Bool, true, false, Option, ok, and_then-ok, ok_inj, List, [], ◌∷◌, ◌++◌,
  ◌≡◌, ◌∙◌, refl, sym, ap, arith,
}
use co.Derive.Repr.{ReprKind}
use co.Derive.ReprC.{ReprCAttrs}
use co.Derive.ReprC.Input.{
  is_empty, when, is_plain_c, zero_tag_enum, enum_valid, enum_niche, plain_repr_c, Variant,
  enum_data, DeriveError,
}
use co.Derive.ReprC.Checks.{VariantReprCAttrs, check_variants, transparent_checks, identity_checks}
use co.Derive.ReprC.Expand.{
  ZeroCheck, zero_checks, zero_messages, data_checks, Plan, choose_item, choose, no_errors,
  derive_checked,
}

choose_item-checks :
    (is_identity : Bool) (variants : List Variant) (checks : List ZeroCheck) (plan : Plan)
    (chosen : choose_item is_identity (enum_data variants) checks ≡ ok plan)
    → plan.checks ≡ checks
unfolding choose_item
choose_item-checks is_identity variants checks plan chosen = ground arith

choose-checks :
    (a : ReprCAttrs) (variants : List Variant) (checks : List ZeroCheck) (plan : Plan)
    (opaque : a.is_transparent ≡ false) (chosen : choose a (enum_data variants) checks ≡ ok plan)
    → plan.checks ≡ checks
unfolding choose
choose-checks a variants checks plan opaque chosen =
    choose_item-checks a.is_identity variants checks plan (sym (rw (opaque) refl) ∙ chosen)

-- An enum without variants is not accepted.
choose-inhabited :
    (a : ReprCAttrs) (variants : List Variant) (checks : List ZeroCheck) (plan : Plan)
    (opaque : a.is_transparent ≡ false) (chosen : choose a (enum_data variants) checks ≡ ok plan)
    → is_empty variants ≡ false
unfolding choose choose_item is_empty
choose-inhabited a [] checks plan opaque chosen = ground (arith, opaque, chosen)
choose-inhabited a (v ∷ variants) checks plan opaque chosen = refl

no_errors-none : (es : List DeriveError) (u : Unit {0}) (none_found : no_errors es ≡ ok u) → es ≡ []
unfolding no_errors
no_errors-none [] u none_found = refl
no_errors-none (e ∷ es) u none_found = cc

when-false : (b : Bool) (e : DeriveError) (silent : when b e ≡ []) → b ≡ false
unfolding when
when-false true e silent = cc
when-false false e silent = refl

-- The errors of an enum that is accepted: it is not a plain `repr(C)`, and there is no message.
enum_silent :
    (a : ReprCAttrs) (repr : Option ReprKind) (es messages : List DeriveError)
    (silent : when a.allow_zero_tag zero_tag_enum
        ++ (when (is_some a.is_valid) enum_valid
            ++ (when a.niche_value enum_niche
                ++ (when (is_plain_c repr) plain_repr_c ++ (es ++ messages))))
      ≡ [])
    → (is_plain_c repr ≡ false) × (messages ≡ [])
enum_silent a repr es messages silent =
    let h1 = append_empty (when a.allow_zero_tag zero_tag_enum) _ silent in
    let h2 = append_empty (when (is_some a.is_valid) enum_valid) _ h1.1 in
    let h3 = append_empty (when a.niche_value enum_niche) _ h2.1 in
    let h4 = append_empty (when (is_plain_c repr) plain_repr_c) _ h3.1 in
    (when-false (is_plain_c repr) plain_repr_c h4.0, (append_empty es messages h4.1).1)

-- What an accepted enum has gone through.
pub record IsAccepted (a : ReprCAttrs) (repr : Option ReprKind) (variants : List Variant)
    (plan : Plan) (attrs : List VariantReprCAttrs) : Type 0 where
  pub printed : zero_checks repr variants attrs ≡ ok plan.checks
  pub silent : zero_messages repr variants 0 attrs ≡ ok []
  pub plain : is_plain_c repr ≡ false
  pub inhabited : is_empty variants ≡ false

pub derive_checked_parts :
    (a : ReprCAttrs) (repr : Option ReprKind) (variants : List Variant) (plan : Plan)
    (opaque : a.is_transparent ≡ false)
    (accepted : derive_checked a repr (enum_data variants) ≡ ok plan)
    → (attrs : List VariantReprCAttrs) × (es : List DeriveError) × (check_variants a 0 variants
        ≡ ok (attrs, es))
      × IsAccepted a repr variants plan attrs
unfolding derive_checked data_checks
derive_checked_parts a repr variants plan opaque accepted =
    let (es1, e1, h1) =
      and_then-ok (transparent_checks a repr (enum_data variants)) _ plan accepted in
    let (es2, e2, h2) = and_then-ok (identity_checks a repr (enum_data variants)) _ plan h1 in
    let (found, e3, h3) = and_then-ok (data_checks a repr (enum_data variants)) _ plan h2 in
    let (u, e4, chosen) = and_then-ok (no_errors (es1 ++ (es2 ++ found.0))) _ plan h3 in
    let (checked, f1, g1) = and_then-ok (check_variants a 0 variants) _ found e3 in
    let (checks, f2, g2) = and_then-ok (zero_checks repr variants checked.0) _ found g1 in
    let (messages, f3, g3) = and_then-ok (zero_messages repr variants 0 checked.0) _ found g2 in
    let same : checks ≡ plan.checks =
      ap (λ t. t.1) (ok_inj g3) ∙ sym (choose-checks a variants found.1 plan opaque chosen) in
    let none_found =
      (append_empty es2 found.0 (append_empty es1 (es2 ++ found.0) (no_errors-none _ u e4)).1).1 in
    let (plain, silent) =
      enum_silent a repr checked.1 messages (ap (λ t. t.0) (ok_inj g3) ∙ none_found) in
    (
      checked.0,
      checked.1,
      f1,
      record {
        printed = f2 ∙ ap ok same;
        silent = f3 ∙ ap ok silent;
        plain = plain;
        inhabited = choose-inhabited a variants found.1 plan opaque chosen;
      },
    )
