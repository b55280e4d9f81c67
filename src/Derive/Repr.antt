-- ===== src/Derive/Repr.antt =====
-- `#[repr(…)]` as the derive macros read it: derive/src/layout/attr.rs.
pub mod Laws
pub mod Parts
use co.Prelude.{
  ℕ, Bool, true, false, ◌&&◌, Option, none, some, Result, ok, err, and_then, List, [], ◌∷◌, ◌++◌,
  ltb, ◌==◌, if◌then◌else◌,
}
use co.Derive.Tag.{TagType, uint8, int8, uint16, int16, uint32, int32, uint64, int64, usize, isize}

-- `enum ReprKind`; the primitive types are those that `ReprToken` parses.
pub data ReprKind : Type 0 where
  transparent : ReprKind
  c_layout : Option TagType → ReprKind
  primitive : TagType → ReprKind

-- `enum ReprToken`; `L` is `syn::LitInt`.
pub data ReprToken {ℓ} (L : Type ℓ) : Type ℓ where
  kind_token : ReprKind → ReprToken L
  align_token : L → ReprToken L
  packed_token : ReprToken L

-- `struct Repr`.
pub record Repr {ℓ} (L : Type ℓ) : Type ℓ where
  pub kind : Option ReprKind
  pub alignment : Option L

-- The errors that `parse_repr` reports.
pub data ReprError : Type 0 where
  duplicate_kind packed_unsupported invalid_literal invalid_tokens : ReprError

-- `PartialEq` of the primitive type names.
unfoldable pub tag_index : TagType → ℕ
tag_index uint8 = 0
tag_index int8 = 1
tag_index uint16 = 2
tag_index int16 = 3
tag_index uint32 = 4
tag_index int32 = 5
tag_index uint64 = 6
tag_index int64 = 7
tag_index usize = 8
tag_index isize = 9

unfoldable pub tag_eq : TagType → TagType → Bool
unfolding tag_index
tag_eq a b = tag_index a == tag_index b

-- `PartialEq for ReprKind`.
unfoldable pub kind_eq : ReprKind → ReprKind → Bool
unfolding tag_eq
kind_eq transparent transparent = true
kind_eq (c_layout none) (c_layout none) = true
kind_eq (c_layout (some a)) (c_layout (some b)) = tag_eq a b
kind_eq (primitive a) (primitive b) = tag_eq a b
kind_eq _ _ = false

-- What a kind does to an earlier one: the new kind, or `None` for a duplicate.
unfoldable pub merge_kind : Option ReprKind → ReprKind → Option ReprKind
unfolding kind_eq
merge_kind (some (c_layout none)) (primitive prim) = some (c_layout (some prim))
merge_kind (some (primitive prim)) (c_layout none) = some (c_layout (some prim))
merge_kind (some existing) new_kind = if kind_eq existing new_kind then some existing else none
merge_kind none new_kind = some new_kind

-- An attribute: not a `repr`, a `repr` without a list, or its tokens, `None` where they do not parse.
pub data Attr {ℓ} (L : Type ℓ) : Type ℓ where
  other_attr : Attr L
  path_attr : Attr L
  list_attr : Option (List (ReprToken L)) → Attr L

-- The variables of `parse_repr`.
pub record ParseState {ℓ} (L : Type ℓ) : Type ℓ where
  pub kind : Option ReprKind
  pub alignment : Option L
  pub errors : List ReprError

-- `base10_parse` is that of `syn::LitInt`, into a `u128`.
module _ {ℓ} {L : Type ℓ} (base10_parse : L → Option ℕ) where
  unfoldable pub push_error : ReprError → ParseState L → ParseState L
  push_error e s = record { kind = s.kind; alignment = s.alignment; errors = s.errors ++ (e ∷ []) }

  unfoldable pub set_kind : Option ReprKind → ParseState L → ParseState L
  unfolding push_error
  set_kind (some kind) s = record { kind = some kind; alignment = s.alignment; errors = s.errors }
  set_kind none s = push_error duplicate_kind s

  unfoldable pub set_alignment : L → ParseState L → ParseState L
  set_alignment l s = record { kind = s.kind; alignment = some l; errors = s.errors }

  unfoldable pub larger : Option ℕ → Option ℕ → Option Bool
  larger (some new) (some existing) = some (ltb existing new)
  larger _ _ = none

  unfoldable pub replace_alignment :
      Option Bool → L → ParseState L → Result (ParseState L) (List ReprError)
  unfolding set_alignment
  replace_alignment none l s = err (invalid_literal ∷ [])
  replace_alignment (some true) l s = ok (set_alignment l s)
  replace_alignment (some false) l s = ok s

  unfoldable pub merge_alignment :
      Option L → L → ParseState L → Result (ParseState L) (List ReprError)
  unfolding replace_alignment larger set_alignment
  merge_alignment none l s = ok (set_alignment l s)
  merge_alignment (some existing) l s =
      replace_alignment (larger (base10_parse l) (base10_parse existing)) l s

  -- The body of the loop over the tokens.
  unfoldable pub parse_token : ReprToken L → ParseState L → Result (ParseState L) (List ReprError)
  unfolding set_kind merge_kind merge_alignment push_error
  parse_token (kind_token kind) s = ok (set_kind (merge_kind s.kind kind) s)
  parse_token (align_token l) s = merge_alignment s.alignment l s
  parse_token packed_token s = ok (push_error packed_unsupported s)

  -- The loop over the tokens of an attribute, with the early return of `?`.
  unfoldable pub parse_tokens :
      List (ReprToken L) → ParseState L → Result (ParseState L) (List ReprError)
  unfolding parse_token
  parse_tokens [] s = ok s
  parse_tokens (token ∷ tokens) s = and_then (parse_token token s) (λ s'. parse_tokens tokens s')

  -- The loop over the attributes.
  unfoldable pub parse_attrs : List (Attr L) → ParseState L → Result (ParseState L) (List ReprError)
  unfolding parse_tokens
  parse_attrs [] s = ok s
  parse_attrs (list_attr (some tokens) ∷ attrs) s =
      and_then (parse_tokens tokens s) (λ s'. parse_attrs attrs s')
  parse_attrs (list_attr none ∷ attrs) s = err (invalid_tokens ∷ [])
  parse_attrs (_ ∷ attrs) s = parse_attrs attrs s

  unfoldable pub finish_parse : List ReprError → ParseState L → Result (Repr L) (List ReprError)
  finish_parse [] s = ok (record { kind = s.kind; alignment = s.alignment })
  finish_parse (e ∷ es) s = err (e ∷ es)

  -- `parse_repr`; without a `repr` attribute its early return is what the loop gives.
  unfoldable pub parse_repr : List (Attr L) → Result (Repr L) (List ReprError)
  unfolding parse_attrs finish_parse
  parse_repr attrs =
      and_then (parse_attrs attrs (record { kind = none; alignment = none; errors = [] }))
        (λ s. finish_parse s.errors s)
