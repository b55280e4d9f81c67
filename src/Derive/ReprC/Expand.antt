-- ===== src/Derive/ReprC/Expand.antt =====
-- `derive_repr_c` of derive/src/layout/mod.rs: the checks of the input, the checks of tags that are
-- printed for the compiler, and which generator prints the conversions. The generators themselves,
-- which print, follow.
use co.Prelude.{
  ℕ, suc, Bool, true, false, not, ◌&&◌, ◌||◌, Option, none, some, is_some, Result, ok, err,
  and_then, List, [], ◌∷◌, ◌++◌, length, map, ◌==◌, if◌then◌else◌,
}
use co.Derive.ReprC.Checks.{
  transparent_checks, identity_checks, decide, VariantReprCAttrs, check_variants, attr_stop,
}
use co.Derive.Tag.{TagExpr, enum_variant_tag_exprs}
use co.Derive.Repr.{ReprKind, Repr, ReprError, parse_repr}
use co.Derive.ReprC.{ReprCAttrs, parse_repr_c_attrs}
use co.Derive.ReprC.Input.{
  Variant, Data, struct_data, enum_data, union_data, DeriveInput, DeriveError, repr_error,
  zero_tag_struct, zero_tag_enum, enum_valid, enum_niche, plain_repr_c, zero_transparent,
  zero_single, zero_data, zero_exhaustive, union_unsupported, uninhabited, Stop, errors, panicked,
  fields_len, all_unit, is_empty, has_integer_repr, is_plain_c, is_transparent_repr,
  is_transparent_enum_repr, exhaustive, validate_fields_no_ffi_type_attr, type_is_valid_closure,
  when,
}

-- A printed check: whether zero is allowed, and the tag.
abbrev pub ZeroCheck : Type 0
ZeroCheck = Bool × TagExpr

unfoldable pub zip_checks : List VariantReprCAttrs → List TagExpr → List ZeroCheck
zip_checks (a ∷ attrs) (e ∷ tags) = (a.allow_zero_tag, e) ∷ zip_checks attrs tags
zip_checks _ _ = []

unfoldable pub discriminants_of : List Variant → List (Option ℕ)
discriminants_of [] = []
discriminants_of (v ∷ variants) = v.discriminant ∷ discriminants_of variants

-- The tests before `is_exhaustive_enum` in the condition of `zero_discriminant_check`.
unfoldable pub needs_zero_check : Option ReprKind → List Variant → Bool
unfolding all_unit has_integer_repr is_empty is_plain_c is_transparent_enum_repr
needs_zero_check repr variants =
    (all_unit variants || has_integer_repr repr)
    && not (is_empty variants)
    && not (all_unit variants && length variants == 1)
    && not (is_plain_c repr)
    && not (is_transparent_enum_repr repr variants)

-- `!is_exhaustive_enum(…)`, with its panic.
unfoldable pub checks_unless : Option Bool → List ZeroCheck → Result (List ZeroCheck) Stop
checks_unless none checks = err panicked
checks_unless (some true) checks = ok []
checks_unless (some false) checks = ok checks

-- `zero_discriminant_check`; for a fieldless enum the printed constant of a variant stands for its tag.
unfoldable pub zero_checks :
    Option ReprKind → List Variant → List VariantReprCAttrs → Result (List ZeroCheck) Stop
unfolding needs_zero_check exhaustive zip_checks discriminants_of checks_unless
zero_checks repr variants attrs =
    if needs_zero_check repr variants
    then checks_unless (exhaustive repr (length variants))
        (zip_checks attrs (enum_variant_tag_exprs (discriminants_of variants)))
    else ok []

-- The message for a variant that allows zero.
unfoldable pub zero_message : Option ReprKind → List Variant → ℕ → Result (List DeriveError) Stop
unfolding is_transparent_repr all_unit has_integer_repr is_plain_c exhaustive decide
zero_message repr variants i =
    if is_transparent_repr repr
    then ok (zero_transparent i ∷ [])
    else if all_unit variants && length variants == 1
    then ok (zero_single i ∷ [])
    else if not (all_unit variants) && not (has_integer_repr repr)
    then ok (zero_data i ∷ [])
    else if is_plain_c repr
    then ok []
    else decide (exhaustive repr (length variants)) (zero_exhaustive i ∷ []) []

-- The loop over the variants that allow zero.
unfoldable pub zero_messages :
    Option ReprKind → List Variant → ℕ → List VariantReprCAttrs → Result (List DeriveError) Stop
unfolding zero_message
zero_messages repr variants i [] = ok []
zero_messages repr variants i (a ∷ attrs) =
    and_then (if a.allow_zero_tag then zero_message repr variants i else ok [])
      (λ es. and_then (zero_messages repr variants (suc i) attrs) (λ more. ok (es ++ more)))

-- What the first `match` on the data computes: the errors, and the printed checks.
unfoldable pub data_checks :
    ReprCAttrs → Option ReprKind → Data → Result (List DeriveError × List ZeroCheck) Stop
unfolding when validate_fields_no_ffi_type_attr type_is_valid_closure check_variants zero_checks
    zero_messages is_plain_c
data_checks a repr (struct_data fields) = ok (
  when a.allow_zero_tag zero_tag_struct
      ++ (validate_fields_no_ffi_type_attr fields ++ type_is_valid_closure fields a.is_valid),
  [],
)
data_checks a repr (enum_data variants) = and_then (check_variants a 0 variants) (λ (attrs, es).
    and_then (zero_checks repr variants attrs) (λ checks.
      and_then (zero_messages repr variants 0 attrs) (λ messages. ok (
        when a.allow_zero_tag zero_tag_enum
            ++ (when (is_some a.is_valid) enum_valid
                ++ (when a.niche_value enum_niche
                    ++ (when (is_plain_c repr) plain_repr_c ++ (es ++ messages)))),
        checks,
      ))))
data_checks a repr union_data = err (errors (union_unsupported ∷ []))

-- Which generator prints the conversions.
pub data Generator : Type 0 where
  field_repr_c struct_item enum_item fieldless_enum : Generator

-- What the derive prints: the checks of tags, and the output of a generator.
pub record Plan : Type 0 where
  pub checks : List ZeroCheck
  pub generator : Generator

-- `variants.iter().all(|variant| variant.fields.is_empty())`.
unfoldable pub all_empty : List Variant → Bool
unfolding fields_len
all_empty [] = true
all_empty (v ∷ variants) = fields_len v.fields == 0 && all_empty variants

unfoldable pub is_empty_enum : Data → Bool
unfolding all_empty
is_empty_enum (enum_data variants) = all_empty variants
is_empty_enum _ = false

unfoldable pub choose_item : Bool → Data → List ZeroCheck → Result Plan Stop
unfolding all_unit is_empty
choose_item is_identity (struct_data fields) checks =
    ok (record { checks = checks; generator = struct_item })
choose_item is_identity (enum_data variants) checks =
    if is_empty variants
    then err (errors (uninhabited ∷ []))
    else if is_identity
    then ok (record { checks = checks; generator = enum_item })
    else if all_unit variants
    then ok (record { checks = checks; generator = fieldless_enum })
    else ok (record { checks = checks; generator = enum_item })
choose_item is_identity union_data checks = err panicked

-- The choice of the generator; that of a transparent type prints no checks.
unfoldable pub choose : ReprCAttrs → Data → List ZeroCheck → Result Plan Stop
unfolding is_empty_enum choose_item
choose a body checks =
    if a.is_transparent && not (is_empty_enum body)
    then ok (record { checks = []; generator = field_repr_c })
    else choose_item a.is_identity body checks

-- `if let Some(errors) = errors { return Err(errors); }`.
unfoldable pub no_errors : List DeriveError → Result (Unit {0}) Stop
no_errors [] = ok tt
no_errors (e ∷ es) = err (errors (e ∷ es))

-- `derive_repr_c` behind its two parsers.
unfoldable pub derive_checked : ReprCAttrs → Option ReprKind → Data → Result Plan Stop
unfolding transparent_checks identity_checks data_checks no_errors choose
derive_checked a repr body = and_then (transparent_checks a repr body) (λ es.
    and_then (identity_checks a repr body) (λ es'.
      and_then (data_checks a repr body)
        (λ (es'', checks). and_then (no_errors (es ++ (es' ++ es''))) (λ _. choose a body checks))))

-- The `?` behind `parse_repr`.
unfoldable pub repr_stop {ℓ} :
    {L : Type ℓ} → Result (Repr L) (List ReprError) → Result (Repr L) Stop
repr_stop (ok repr) = ok repr
repr_stop (err es) = err (errors (map repr_error es))

module _ {ℓ} {L : Type ℓ} (base10_parse : L → Option ℕ) where
  -- `derive_repr_c`.
  unfoldable pub derive_repr_c : DeriveInput L → Result Plan Stop
  unfolding derive_checked repr_stop attr_stop
  derive_repr_c input = and_then (repr_stop (parse_repr base10_parse input.repr_attrs)) (λ repr.
      and_then (attr_stop (parse_repr_c_attrs input.attrs))
        (λ a. derive_checked a repr.kind input.body))
