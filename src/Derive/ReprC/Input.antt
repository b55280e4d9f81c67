-- ===== src/Derive/ReprC/Input.antt =====
-- The item that `derive_repr_c` of derive/src/layout/mod.rs gets, its tests of the item's shape, and its
-- errors.
use co.Prelude.{
  ℕ, zero, suc, Bool, true, false, ◌&&◌, Option, none, some, List, [], ◌∷◌, length, ◌==◌,
  if◌then◌else◌,
}
use co.Derive.Tag.{TagType, infer_repr, is_exhaustive_enum}
use co.Derive.Repr.{ReprKind, ReprError, Attr}
use co.Derive.ReprC.{ReprCAttr, AttrError}

-- `syn::Fields`; a field is its number of `repr_c` attributes.
pub data Fields : Type 0 where
  unit_fields : Fields
  unnamed_fields named_fields : List ℕ → Fields

-- `syn::Variant`.
pub record Variant : Type 0 where
  pub fields : Fields
  pub attrs : List ReprCAttr
  pub discriminant : Option ℕ

-- `syn::Data`.
pub data Data : Type 0 where
  struct_data : Fields → Data
  enum_data : List Variant → Data
  union_data : Data

-- `syn::DeriveInput`; `L` is `syn::LitInt`.
pub record DeriveInput {ℓ} (L : Type ℓ) : Type ℓ where
  pub repr_attrs : List (Attr L)
  pub attrs : List ReprCAttr
  pub body : Data

-- The errors of `derive_repr_c`; one that belongs to a variant holds its position.
pub data DeriveError : Type 0 where
  repr_error : ReprError → DeriveError
  attr_error : AttrError → DeriveError
  transparent_niche transparent_valid transparent_other transparent_shape : DeriveError
  transparent_fields transparent_repr : DeriveError
  identity_move identity_struct_repr identity_shape identity_valid identity_niche : DeriveError
  identity_view identity_wide_data : DeriveError
  zero_tag_struct zero_tag_enum : DeriveError
  field_attr field_attr_twice valid_arity : DeriveError
  enum_valid enum_niche plain_repr_c : DeriveError
  variant_identity_valid variant_niche variant_view variant_identity variant_move : ℕ → DeriveError
  zero_transparent zero_single zero_data zero_exhaustive : ℕ → DeriveError
  union_unsupported uninhabited : DeriveError

-- How a derive ends without a plan: the errors that it returns, or a panic.
pub data Stop : Type 0 where
  errors : List DeriveError → Stop
  panicked : Stop

-- `fields.len()`.
unfoldable pub fields_len : Fields → ℕ
fields_len unit_fields = 0
fields_len (unnamed_fields fields) = length fields
fields_len (named_fields fields) = length fields

-- `matches!(…, Fields::Unit)`.
unfoldable pub is_unit : Fields → Bool
is_unit unit_fields = true
is_unit _ = false

-- `variants.iter().all(|variant| matches!(variant.fields, Fields::Unit))`.
unfoldable pub all_unit : List Variant → Bool
unfolding is_unit
all_unit [] = true
all_unit (v ∷ variants) = is_unit v.fields && all_unit variants

-- `is_empty` of a list.
unfoldable pub is_empty {ℓ} : {A : Type ℓ} → List A → Bool
is_empty [] = true
is_empty (a ∷ rest) = false

-- `has_integer_repr`.
unfoldable pub has_integer_repr : Option ReprKind → Bool
has_integer_repr (some (ReprKind.primitive prim)) = true
has_integer_repr (some (ReprKind.c_layout (some prim))) = true
has_integer_repr _ = false

-- `matches!(repr_attr, Some(ReprKind::C(None)))`.
unfoldable pub is_plain_c : Option ReprKind → Bool
is_plain_c (some (ReprKind.c_layout none)) = true
is_plain_c _ = false

-- `matches!(repr_attr, Some(ReprKind::Transparent))`.
unfoldable pub is_transparent_repr : Option ReprKind → Bool
is_transparent_repr (some ReprKind.transparent) = true
is_transparent_repr _ = false

-- `is_transparent_enum_repr`.
unfoldable pub is_transparent_enum_repr : Option ReprKind → List Variant → Bool
is_transparent_enum_repr (some ReprKind.transparent) variants = true
is_transparent_enum_repr none variants = length variants == 1
is_transparent_enum_repr _ variants = false

-- `enum_tag_type`; where it meets `unreachable!`, there is none.
unfoldable pub enum_tag_type : Option ReprKind → ℕ → Option TagType
enum_tag_type none variants_len = some (infer_repr variants_len)
enum_tag_type (some (ReprKind.c_layout (some prim))) variants_len = some prim
enum_tag_type (some (ReprKind.primitive prim)) variants_len = some prim
enum_tag_type _ variants_len = none

-- `is_exhaustive_enum` of the tag type, with its panic.
unfoldable pub exhaustive : Option ReprKind → ℕ → Option Bool
unfolding enum_tag_type
exhaustive repr n = elim (enum_tag_type repr n) [
  | some tag ↦ some (is_exhaustive_enum n tag)
  | none ↦ none
]

-- `find_single_attr_opt` for each field.
unfoldable pub field_errors : List ℕ → List DeriveError
field_errors [] = []
field_errors (zero ∷ fields) = field_errors fields
field_errors (suc zero ∷ fields) = field_attr ∷ field_errors fields
field_errors (suc (suc n) ∷ fields) = field_attr_twice ∷ field_errors fields

-- `validate_fields_no_ffi_type_attr`.
unfoldable pub validate_fields_no_ffi_type_attr : Fields → List DeriveError
unfolding field_errors
validate_fields_no_ffi_type_attr unit_fields = []
validate_fields_no_ffi_type_attr (unnamed_fields fields) = field_errors fields
validate_fields_no_ffi_type_attr (named_fields fields) = field_errors fields

-- `type_is_valid_closure`.
unfoldable pub type_is_valid_closure : Fields → Option ℕ → List DeriveError
unfolding fields_len
type_is_valid_closure fields none = []
type_is_valid_closure fields (some inputs) =
    if fields_len fields == inputs then [] else valid_arity ∷ []

-- An error that is pushed if the test holds.
unfoldable pub when : Bool → DeriveError → List DeriveError
when true e = e ∷ []
when false e = []
