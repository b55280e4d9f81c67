-- ===== src/Derive/ReprC.antt =====
-- `#[repr_c(…)]` and the input of `derive_repr_c`, from derive/src/layout/mod.rs. Spans and the texts of
-- messages are left out; an error is named for its message.
pub mod Input
pub mod Checks
pub mod Expand
pub mod Laws
pub mod Ends
pub mod Marked
pub mod Accepted
pub mod Zero
use co.Prelude.{
  ℕ, Bool, true, false, not, ◌&&◌, Option, none, some, is_some, Result, ok, err, and_then, List, [],
  ◌∷◌, if◌then◌else◌,
}

-- `struct ReprCAttrs`; a closure is its number of arguments.
pub record ReprCAttrs : Type 0 where
  pub niche_value : Bool
  pub is_valid : Option ℕ
  pub is_identity : Bool
  pub is_move : Bool
  pub is_transparent : Bool
  pub is_view : Bool
  pub is_wide_data : Bool
  pub allow_zero_tag : Bool

-- `ReprCAttrs::default`.
abbrev pub no_attrs : ReprCAttrs
no_attrs = record {
  niche_value = false;
  is_valid = none;
  is_identity = false;
  is_move = false;
  is_transparent = false;
  is_view = false;
  is_wide_data = false;
  allow_zero_tag = false;
}

-- What stands in a `repr_c` attribute, `malformed` where the parsers of syn refuse.
pub data Meta : Type 0 where
  identity move_kind transparent view wide_data allow_zero niche : Meta
  valid_closure : ℕ → Meta
  unknown malformed : Meta

-- An attribute, with its items where it is `repr_c`.
pub data ReprCAttr : Type 0 where
  other_attr : ReprCAttr
  repr_c : List Meta → ReprCAttr

-- The errors of `parse_repr_c_attrs`.
pub data AttrError : Type 0 where
  duplicate : Meta → AttrError
  unknown_kind malformed_meta expected_kind : AttrError

-- A flag that may be set once.
unfoldable pub once : Bool → Meta → ReprCAttrs → Result ReprCAttrs AttrError
once set meta attrs = if set then err (duplicate meta) else ok attrs

-- The closure of `parse_nested_meta`.
unfoldable pub parse_meta : Meta → ReprCAttrs → Result ReprCAttrs AttrError
unfolding once
parse_meta identity a = once a.is_identity identity (record a { is_identity = true })
parse_meta move_kind a = once a.is_move move_kind (record a { is_move = true })
parse_meta transparent a = once a.is_transparent transparent (record a { is_transparent = true })
parse_meta view a = once a.is_view view (record a { is_view = true })
parse_meta wide_data a = once a.is_wide_data wide_data (record a { is_wide_data = true })
parse_meta (valid_closure inputs) a =
    once (is_some a.is_valid) (valid_closure inputs) (record a { is_valid = some inputs })
parse_meta allow_zero a = once a.allow_zero_tag allow_zero (record a { allow_zero_tag = true })
parse_meta niche a = once a.niche_value niche (record a { niche_value = true })
parse_meta unknown a = err unknown_kind
parse_meta malformed a = err malformed_meta

unfoldable pub parse_metas : List Meta → ReprCAttrs → Result ReprCAttrs AttrError
unfolding parse_meta
parse_metas [] a = ok a
parse_metas (meta ∷ metas) a = and_then (parse_meta meta a) (λ a'. parse_metas metas a')

-- The loop over the attributes.
unfoldable pub parse_attr_loop : List ReprCAttr → ReprCAttrs → Result ReprCAttrs AttrError
unfolding parse_metas
parse_attr_loop [] a = ok a
parse_attr_loop (other_attr ∷ attrs) a = parse_attr_loop attrs a
parse_attr_loop (repr_c metas ∷ attrs) a =
    and_then (parse_metas metas a) (λ a'. parse_attr_loop attrs a')

-- `found_attr`.
unfoldable pub found_attr : List ReprCAttr → Bool
found_attr [] = false
found_attr (other_attr ∷ attrs) = found_attr attrs
found_attr (repr_c metas ∷ attrs) = true

-- That no kind was given.
unfoldable pub is_unset : ReprCAttrs → Bool
is_unset a =
    not a.niche_value
    && not (is_some a.is_valid)
    && not a.is_identity
    && not a.is_move
    && not a.is_transparent
    && not a.is_view
    && not a.is_wide_data
    && not a.allow_zero_tag

-- `parse_repr_c_attrs`.
unfoldable pub parse_repr_c_attrs : List ReprCAttr → Result ReprCAttrs AttrError
unfolding parse_attr_loop found_attr is_unset
parse_repr_c_attrs attrs =
    and_then (parse_attr_loop attrs no_attrs)
      (λ a. if found_attr attrs && is_unset a then err expected_kind else ok a)
