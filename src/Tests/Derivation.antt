-- ===== src/Tests/Derivation.antt =====
-- The derive and its attributes at concrete inputs.
use co.Prelude.{
  ◌&&◌, ℕ, ◌≤◌, ◌⊎◌, Option, Bool, true, false, not, none, some, List, [], ◌∷◌, All, ok, err, ◌≡◌,
  refl,
}
use co.Derive.Tag.{TagType, is_free, is_exhaustive_enum, enum_variant_tag_exprs}
use co.Derive.Tag.Laws.{discriminants}
use co.Derive.Repr.{ReprKind, primitive, kind_token, list_attr}
use co.Derive.ReprC.{no_attrs, repr_c, allow_zero, parse_repr_c_attrs}
use co.Derive.ReprC.Input.{
  unit_fields, unnamed_fields, Variant, enum_data, DeriveInput, DeriveError, errors,
}
use co.Derive.ReprC.Checks.{VariantReprCAttrs, check_variants, attr_stop}
use co.Derive.ReprC.Expand.{
  Plan, enum_item, fieldless_enum, derive_checked, derive_repr_c, discriminants_of, zip_checks,
}
use co.Derive.ReprC.Ends.{derive_repr_c_ends}
use co.Derive.ReprC.Marked.{flags, any_marked, has_spare_tags}
use co.Derive.ReprC.Zero.{derive_zero_tag, passes, are_zero}
use co.Derive.Dispatch.{for_each_combination}
use co.Derive.Groups.{
  GenericParam, lifetime_param, type_param, const_param, type_argument, const_argument, captured,
  entry, DispatchAttr, erased_list, other_attr, Groups, undeclared, assigned_twice, wrong_kind,
}
use co.Derive.Groups.Targets.{parse_dispatch_attr}
use co.Derive.Groups.Assigned.{count, keys}
use co.Derive.Groups.Kinds.{IsTyped, parse_dispatch_attr_kinds}
use co.Derive.SoftLifetimes.{Signature, typed, self_reference, done, reference}
use co.Derive.SoftLifetimes.Validate.{validate_soft_lifetimes, connected_lifetimes, borrowed_output}
use co.Derive.SoftLifetimes.Visit.{is_written}
use co.Derive.SoftLifetimes.Members.{all_written, soft_bare}
use co.Derive.SoftLifetimes.Connected.{soft_nested}
use co.Derive.SoftLifetimes.Accepts.{is_ok, borrows_soft, validate_soft_lifetimes_lem}

-- `#[repr(u8)] enum { A(T) = 2, #[repr_c(allow_zero_tag)] B(T) = 0, C }`
abbrev three : List Variant
three =
    record { fields = unnamed_fields (0 ∷ []); attrs = []; discriminant = some 2 }
    ∷ record {
      fields = unnamed_fields (0 ∷ []);
      attrs = repr_c (allow_zero ∷ []) ∷ [];
      discriminant = some 0;
    }
    ∷ record { fields = unit_fields; attrs = []; discriminant = none }
    ∷ []

abbrev input : DeriveInput ℕ
input = record {
  repr_attrs = list_attr (some (kind_token (primitive TagType.uint8) ∷ [])) ∷ [];
  attrs = [];
  body = enum_data three;
}

derive_repr_c_ends_example :
    ((plan : Plan) × (derive_repr_c some input ≡ ok plan))
    ⊎ ((e : DeriveError) × (es : List DeriveError) × (derive_repr_c some input
          ≡ err (errors (e ∷ es))))
derive_repr_c_ends_example = derive_repr_c_ends some input

abbrev allowed : Bool → VariantReprCAttrs
allowed b = record { is_valid = none; allow_zero_tag = b }

abbrev marks : List VariantReprCAttrs
marks = allowed false ∷ allowed true ∷ allowed false ∷ []

abbrev planned : Plan
planned = record {
  checks = zip_checks marks (enum_variant_tag_exprs (discriminants_of three));
  generator = enum_item;
}

derive_zero_tag_example :
    let tags = discriminants 8 0 (discriminants_of three) in
    let repr : Option ReprKind = some (primitive TagType.uint8) in
    ((has_spare_tags repr three ≡ true)
      × (flags marks ≡ are_zero tags)
      × (is_free 0 tags ≡ not (any_marked (flags marks))))
    ⊎ ((has_spare_tags repr three ≡ false) × (any_marked (flags marks) ≡ false))
unfolding derive_checked check_variants attr_stop parse_repr_c_attrs passes is_exhaustive_enum
    enum_variant_tag_exprs
derive_zero_tag_example =
    derive_zero_tag 8 no_attrs (some (primitive TagType.uint8)) three planned marks [] refl refl
      refl refl

-- `#[repr(u8)] enum { Only }`: its tag is zero, and nothing is asserted.
only_unchecked :
    derive_checked no_attrs
      (some (primitive TagType.uint8))
      (enum_data (record { fields = unit_fields; attrs = []; discriminant = none } ∷ []))
    ≡ ok (record { checks = []; generator = fieldless_enum })
unfolding derive_checked check_variants attr_stop parse_repr_c_attrs is_exhaustive_enum
only_unchecked = refl

-- `<'a, T, U, const N: usize>` with `erased(use<T, N> @ (<u8, 4> | <u16, 2>), use<U> @ (<bool>))`; the
-- identifiers are 1, 2 and 3, and a target is a number.
abbrev generics : List GenericParam
generics = lifetime_param 0 ∷ type_param 1 ∷ type_param 2 ∷ const_param 3 ∷ []

abbrev attrs : List (DispatchAttr ℕ)
attrs =
    other_attr
    ∷ erased_list (
        entry (captured 1 ∷ captured 3 ∷ []) (
          (type_argument 8 ∷ const_argument 4 ∷ [])
          ∷ (type_argument 16 ∷ const_argument 2 ∷ [])
          ∷ [])
        ∷ entry (captured 2 ∷ []) ((type_argument 1 ∷ []) ∷ [])
        ∷ [])
    ∷ []

abbrev groups : Groups ℕ
groups =
    (
      1 ∷ 3 ∷ [],
      (type_argument 8 ∷ const_argument 4 ∷ []) ∷ (type_argument 16 ∷ const_argument 2 ∷ []) ∷ [],
    )
    ∷ (2 ∷ [], (type_argument 1 ∷ []) ∷ [])
    ∷ []

parse_dispatch_attr_kinds_example :
    All (IsTyped generics groups) (for_each_combination groups) × (count 3 (keys groups) ≤ 1)
unfolding parse_dispatch_attr
parse_dispatch_attr_kinds_example = parse_dispatch_attr_kinds generics attrs groups refl 3

-- A constant parameter in two groups, and one with a type.
twice :
    parse_dispatch_attr {A = ℕ} generics (
      erased_list (
        entry (captured 3 ∷ []) ((const_argument 4 ∷ []) ∷ [])
        ∷ entry (captured 3 ∷ captured 0 ∷ []) []
        ∷ [])
      ∷ [])
    ≡ err (assigned_twice 3 ∷ undeclared 0 ∷ [])
unfolding parse_dispatch_attr
twice = refl

other_kind :
    parse_dispatch_attr {A = ℕ} generics
      (erased_list (entry (captured 3 ∷ []) ((type_argument 4 ∷ []) ∷ []) ∷ []) ∷ [])
    ≡ err (wrong_kind 3 ∷ [])
unfolding parse_dispatch_attr
other_kind = refl

-- `fn f(&self, #[soft] value: (&bool, &bool)) -> &bool`: the result borrows from the receiver.
abbrev borrowing : Signature
borrowing = record {
  inputs =
      record { is_soft = false; input = self_reference none }
      ∷ record { is_soft = true; input = typed (reference none done (reference none done done)) }
      ∷ [];
  output = some (reference none done done);
}

validate_soft_lifetimes_lem_example : is_ok (validate_soft_lifetimes borrowing) ≡ (
    soft_bare borrowing.inputs
    && (not (borrows_soft borrowing.inputs borrowing.output) && not (soft_nested borrowing.inputs)))
unfolding all_written is_written
validate_soft_lifetimes_lem_example = validate_soft_lifetimes_lem borrowing refl refl

borrowing_accepted : validate_soft_lifetimes borrowing ≡ ok tt
unfolding validate_soft_lifetimes
borrowing_accepted = refl

-- `fn f(#[soft] value: &&bool) -> &bool`: two lifetimes, so that the result has none of them.
nested_rejected :
    validate_soft_lifetimes (record {
      inputs =
          record { is_soft = true; input = typed (reference none (reference none done done) done) }
          ∷ [];
      output = some (reference none done done);
    })
    ≡ err (connected_lifetimes ∷ [])
unfolding validate_soft_lifetimes
nested_rejected = refl

-- `fn f(#[soft] value: &bool) -> &bool`.
borrowed_rejected :
    validate_soft_lifetimes (record {
      inputs = record { is_soft = true; input = typed (reference none done done) } ∷ [];
      output = some (reference none done done);
    })
    ≡ err (borrowed_output ∷ [])
unfolding validate_soft_lifetimes
borrowed_rejected = refl
