-- ===== src/Tests/Derive.antt =====
-- The compile-time functions at concrete inputs.
use co.Prelude.{
  ℕ, ◌^◌, ◌<◌, ◌⊎◌, true, Option, none, some, List, [], ◌∷◌, map, length, ◌≡◌, refl, arith,
}
use co.Derive.Tag.{
  TagType, is_exhaustive_enum, repr_type_bit_width, gen_enum_niche_tag, is_free, eval_tags,
  enum_variant_tag_exprs,
}
use co.Derive.Tag.Exhaustive.{is_exhaustive_enum_or_niche, HasNicheTag}
use co.Derive.Tag.Niche.{gen_enum_niche_tag_lem}
use co.Derive.TupleTree.{Node, build_extern_c_type_tuple, follow}
use co.Derive.TupleTree.Laws.{build_extern_c_type_tuple_fields}
use co.Derive.TupleTree.Arity.{build_extern_c_type_tuple_arity, is_bounded}
use co.Derive.Dispatch.{for_each_combination}
use co.Derive.Dispatch.Laws.{for_each_combination_lem, selections_of, product}
use co.Derive.Repr.{c_layout, kind_token, align_token, packed_token, Attr, list_attr}
use co.Derive.Symbol.{sanitize_symbol_component}
use co.Derive.Symbol.Laws.{sanitize_symbol_component-is_component, is_component}

-- `A = 0, B = 255, C`: the last tag wraps around to 0 on 8 bits.
abbrev variants : List (Option ℕ)
variants = some 0 ∷ some 255 ∷ none ∷ []

gen_enum_niche_tag_lem_example :
    (t : ℕ) × (gen_enum_niche_tag (2 ^ 8) 8 variants ≡ some t)
    × (is_free t (eval_tags 8 (enum_variant_tag_exprs variants)) ≡ true)
    × (t < 2 ^ 8)
gen_enum_niche_tag_lem_example = gen_enum_niche_tag_lem 8 variants (omega arith)

is_exhaustive_enum_or_niche_example :
    (is_exhaustive_enum 3 TagType.uint8 ≡ true) ⊎ HasNicheTag 8 variants
unfolding repr_type_bit_width
is_exhaustive_enum_or_niche_example =
    is_exhaustive_enum_or_niche TagType.uint8 8 variants refl (omega arith) (omega arith)

-- Fourteen types: a full tuple and one of two, in a pair.
abbrev fourteen : List ℕ
fourteen = 0 ∷ 1 ∷ 2 ∷ 3 ∷ 4 ∷ 5 ∷ 6 ∷ 7 ∷ 8 ∷ 9 ∷ 10 ∷ 11 ∷ 12 ∷ 13 ∷ []

build_extern_c_type_tuple_fields_example :
    (node : Node ℕ) × (build_extern_c_type_tuple fourteen ≡ some node)
    × (map (follow node.tree) node.accessors ≡ map some fourteen)
build_extern_c_type_tuple_fields_example = build_extern_c_type_tuple_fields fourteen

build_extern_c_type_tuple_arity_example :
    is_bounded (build_extern_c_type_tuple_fields fourteen).0.tree ≡ true
build_extern_c_type_tuple_arity_example =
    build_extern_c_type_tuple_arity fourteen (build_extern_c_type_tuple_fields fourteen).0
      (build_extern_c_type_tuple_fields fourteen).1

abbrev groups : List (ℕ × List ℕ)
groups = (0, 10 ∷ 11 ∷ []) ∷ (1, 20 ∷ 21 ∷ 22 ∷ []) ∷ []

for_each_combination_lem_example :
    (for_each_combination groups ≡ selections_of groups)
    × (length (for_each_combination groups) ≡ 6)
unfolding product
for_each_combination_lem_example = for_each_combination_lem groups

abbrev packed_attrs : List (Attr ℕ)
packed_attrs =
    list_attr (some (kind_token (c_layout none) ∷ packed_token ∷ align_token 4 ∷ [])) ∷ []

-- `&[u8]`.
abbrev slice_name : List ℕ
slice_name = 38 ∷ 91 ∷ 117 ∷ 56 ∷ 93 ∷ []

sanitize_symbol_component-is_component_example :
    is_component (sanitize_symbol_component slice_name) ≡ true
sanitize_symbol_component-is_component_example = sanitize_symbol_component-is_component slice_name
