-- ===== src/Derive/Tag/Exhaustive.antt =====
-- An enum either uses every tag of its type or has a niche tag.
use co.Prelude.{
  ℕ, ◌^◌, ◌≤◌, ◌<◌, ◌⊎◌, inl, inr, true, Option, some, List, length, ◌==◌, ◌≡◌, arith, Bool-cases,
}
use co.Derive.Tag.{
  TagType, uint8, int8, uint16, int16, uint32, int32, uint64, int64, usize, isize,
  repr_type_bit_width, is_exhaustive_enum, max_values, reaches, gen_enum_niche_tag, is_free,
  eval_tags, enum_variant_tag_exprs,
}
use co.Derive.Tag.Niche.{gen_enum_niche_tag_lem}

-- A niche tag that the printed search finds.
unfoldable pub HasNicheTag : ℕ → List (Option ℕ) → Type 0
HasNicheTag w vs =
    (t : ℕ) × (gen_enum_niche_tag (2 ^ w) w vs ≡ some t)
    × (is_free t (eval_tags w (enum_variant_tag_exprs vs)) ≡ true)
    × (t < 2 ^ w)

full_or_niche :
    (w : ℕ) (vs : List (Option ℕ)) (bound : length vs ≤ 2 ^ w)
    → ((length vs == 2 ^ w) ≡ true) ⊎ HasNicheTag w vs
unfolding HasNicheTag
full_or_niche w vs bound = elim (Bool-cases (length vs == 2 ^ w)) [
  | inl full ↦ inl full
  | inr free ↦ inr (gen_enum_niche_tag_lem w vs (ground (arith, free, bound)))
]

some_width : (k w : ℕ) (width : ◌≡◌ {A = Option ℕ} (some k) (some w)) → k ≡ w
some_width k w width = ground arith

at_width :
    (k w : ℕ) (vs : List (Option ℕ)) (width : ◌≡◌ {A = Option ℕ} (some k) (some w))
    (bound : length vs ≤ 2 ^ w)
    → ((length vs == 2 ^ k) ≡ true) ⊎ HasNicheTag w vs
at_width k w vs width bound = rw (some_width k w width) (full_or_niche w vs bound)

-- An enum with a tag type of 8, 16 or 32 bits and no more variants than tags: either
-- `is_exhaustive_enum` says so, or the search for a niche tag ends with a tag of no variant.
pub is_exhaustive_enum_or_niche :
    (repr : TagType) (w : ℕ) (vs : List (Option ℕ)) (width : repr_type_bit_width repr ≡ some w)
    (narrow : w ≤ 32) (bound : length vs ≤ 2 ^ w)
    → (is_exhaustive_enum (length vs) repr ≡ true) ⊎ HasNicheTag w vs
unfolding is_exhaustive_enum max_values reaches repr_type_bit_width
is_exhaustive_enum_or_niche uint8 w vs width narrow bound = at_width 8 w vs width bound
is_exhaustive_enum_or_niche int8 w vs width narrow bound = at_width 8 w vs width bound
is_exhaustive_enum_or_niche uint16 w vs width narrow bound = at_width 16 w vs width bound
is_exhaustive_enum_or_niche int16 w vs width narrow bound = at_width 16 w vs width bound
is_exhaustive_enum_or_niche uint32 w vs width narrow bound = at_width 32 w vs width bound
is_exhaustive_enum_or_niche int32 w vs width narrow bound = at_width 32 w vs width bound
is_exhaustive_enum_or_niche uint64 w vs width narrow bound =
    absurd (omega (arith, some_width 64 w width))
is_exhaustive_enum_or_niche int64 w vs width narrow bound =
    absurd (omega (arith, some_width 64 w width))
is_exhaustive_enum_or_niche usize w vs width narrow bound = ground arith
is_exhaustive_enum_or_niche isize w vs width narrow bound = ground arith
