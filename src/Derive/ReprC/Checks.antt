-- ===== src/Derive/ReprC/Checks.antt =====
-- The checks of `derive_repr_c` of derive/src/layout/mod.rs on transparent types, on identity types and on
-- the variants of enums.
use co.Prelude.{
  ℕ, suc, Bool, true, false, not, ◌&&◌, ◌||◌, Option, none, some, is_some, Result, ok, err,
  and_then, List, [], ◌∷◌, ◌++◌, length, ◌==◌, if◌then◌else◌,
}
use co.Derive.Repr.{ReprKind}
use co.Derive.ReprC.{ReprCAttrs, AttrError, parse_repr_c_attrs}
use co.Derive.ReprC.Input.{
  Fields, Variant, Data, struct_data, enum_data, union_data, DeriveError, attr_error,
  transparent_niche, transparent_valid, transparent_other, transparent_shape, transparent_fields,
  transparent_repr, identity_move, identity_struct_repr, identity_shape, identity_valid,
  identity_niche, identity_view, identity_wide_data, variant_identity_valid, variant_niche,
  variant_view, variant_identity, variant_move, Stop, errors, panicked, fields_len, all_unit,
  is_empty, has_integer_repr, is_plain_c, is_transparent_repr, exhaustive,
  validate_fields_no_ffi_type_attr, type_is_valid_closure, when,
}

-- `fieldless_enum`.
unfoldable pub is_fieldless_enum : Data → Bool
unfolding is_empty all_unit
is_fieldless_enum (enum_data variants) = not (is_empty variants) && all_unit variants
is_fieldless_enum _ = false

unfoldable pub is_enum : Data → Bool
is_enum (enum_data variants) = true
is_enum _ = false

-- `&data.variants[0].fields`.
unfoldable pub first_fields : List Variant → Result Fields Stop
first_fields [] = err panicked
first_fields (v ∷ variants) = ok v.fields

-- `fields` of a transparent type.
unfoldable pub transparent_fields_of : Data → Result Fields Stop
unfolding first_fields is_fieldless_enum
transparent_fields_of (struct_data fields) = ok fields
transparent_fields_of (enum_data variants) =
    if length variants == 1 || is_fieldless_enum (enum_data variants)
    then first_fields variants
    else err (errors (transparent_shape ∷ []))
transparent_fields_of union_data = err (errors (transparent_shape ∷ []))

-- What is asked of the fields of a transparent type.
unfoldable pub check_transparent :
    Option ReprKind → Data → Fields → List DeriveError → Result (List DeriveError) Stop
unfolding fields_len is_enum is_fieldless_enum is_transparent_repr
check_transparent repr body fields es =
    if not (fields_len fields == 1) && not (is_enum body && fields_len fields == 0)
    then err (errors (transparent_fields ∷ []))
    else if is_enum body && not (is_fieldless_enum body) && not (is_transparent_repr repr)
    then err (errors (transparent_repr ∷ []))
    else ok es

-- `if repr_c_attrs.is_transparent { … }`.
unfoldable pub transparent_checks :
    ReprCAttrs → Option ReprKind → Data → Result (List DeriveError) Stop
unfolding transparent_fields_of check_transparent when
transparent_checks a repr body =
    if not a.is_transparent
    then ok []
    else if a.is_identity || a.is_view || a.is_wide_data
    then err (errors (transparent_other ∷ []))
    else and_then (transparent_fields_of body) (λ fields.
      check_transparent repr body fields
        (when a.niche_value transparent_niche ++ when (is_some a.is_valid) transparent_valid))

-- A test that may panic, for errors that it decides.
unfoldable pub decide :
    Option Bool → List DeriveError → List DeriveError → Result (List DeriveError) Stop
decide none yes_errors no_errors = err panicked
decide (some true) yes_errors no_errors = ok yes_errors
decide (some false) yes_errors no_errors = ok no_errors

-- The `match` on the data of an identity type.
unfoldable pub identity_data : Option ReprKind → Data → Result (List DeriveError) Stop
unfolding is_plain_c is_transparent_repr has_integer_repr exhaustive decide
identity_data repr (struct_data fields) =
    ok (if is_plain_c repr || is_transparent_repr repr then [] else identity_struct_repr ∷ [])
identity_data repr (enum_data variants) =
    if has_integer_repr repr
    then decide (exhaustive repr (length variants)) [] (identity_shape ∷ [])
    else ok (identity_shape ∷ [])
identity_data repr union_data = ok (identity_shape ∷ [])

-- `if repr_c_attrs.is_identity { … }`.
unfoldable pub identity_checks :
    ReprCAttrs → Option ReprKind → Data → Result (List DeriveError) Stop
unfolding identity_data when
identity_checks a repr body =
    if not a.is_identity
    then ok []
    else and_then (identity_data repr body) (λ es. ok (
        when a.is_move identity_move
        ++ (es
            ++ (when (is_some a.is_valid) identity_valid
                ++ (when a.niche_value identity_niche
                    ++ (when a.is_view identity_view ++ when a.is_wide_data identity_wide_data))))))

-- `struct VariantReprCAttrs`.
pub record VariantReprCAttrs : Type 0 where
  pub is_valid : Option ℕ
  pub allow_zero_tag : Bool

-- The errors of one variant, with the attributes that it has.
unfoldable pub variant_errors : ReprCAttrs → ℕ → Fields → ReprCAttrs → List DeriveError
unfolding type_is_valid_closure when
variant_errors a i fields v =
    when (a.is_identity && is_some v.is_valid) (variant_identity_valid i)
    ++ (type_is_valid_closure fields v.is_valid
        ++ (when v.niche_value (variant_niche i)
            ++ (when v.is_view (variant_view i)
                ++ (when v.is_identity (variant_identity i) ++ when v.is_move (variant_move i)))))

-- The `?` behind `parse_repr_c_attrs`.
unfoldable pub attr_stop : Result ReprCAttrs AttrError → Result ReprCAttrs Stop
attr_stop (ok a) = ok a
attr_stop (err e) = err (errors (attr_error e ∷ []))

-- The loop over the variants from position `i`: their attributes, and the errors.
unfoldable pub check_variants :
    ReprCAttrs → ℕ → List Variant → Result (List VariantReprCAttrs × List DeriveError) Stop
unfolding validate_fields_no_ffi_type_attr variant_errors attr_stop
check_variants a i [] = ok ([], [])
check_variants a i (v ∷ variants) = and_then (attr_stop (parse_repr_c_attrs v.attrs)) (λ va.
    and_then (check_variants a (suc i) variants) (λ (rest, es). ok (
      record { is_valid = va.is_valid; allow_zero_tag = va.allow_zero_tag } ∷ rest,
      validate_fields_no_ffi_type_attr v.fields ++ (variant_errors a i v.fields va ++ es),
    )))
