-- ===== src/Derive/Tag.antt =====
-- The tags of derived enums, from derive/src/layout/mod.rs and derive/src/layout/niche.rs: the tag
-- type, the tag of each variant, and a tag that is free to serve as a niche. A tag of `w` bits is its
-- bit pattern, a number below `2 ^ w`; signed and unsigned types have the same patterns.
pub mod Niche
pub mod Laws
pub mod Exhaustive
use co.Prelude.{
  ℕ, zero, suc, ◌+◌, ◌-◌, ◌^◌, ◌%◌, Bool, true, false, not, ◌&&◌, Option, none, some, is_some, List,
  [], ◌∷◌, length, leb, ◌==◌, if◌then◌else◌,
}

-- The primitive types that `repr_type_name` knows.
pub data TagType : Type 0 where
  uint8 int8 uint16 int16 uint32 int32 uint64 int64 usize isize : TagType

-- `infer_repr`.
unfoldable pub infer_repr : ℕ → TagType
infer_repr num_variants =
    if leb num_variants 256
    then uint8
    else (if leb num_variants 65536
        then uint16
        else (if leb num_variants 4294967296 then uint32 else uint64))

-- `repr_type_bit_width`; the two pointer-sized types have none.
unfoldable pub repr_type_bit_width : TagType → Option ℕ
repr_type_bit_width uint8 = some 8
repr_type_bit_width int8 = some 8
repr_type_bit_width uint16 = some 16
repr_type_bit_width int16 = some 16
repr_type_bit_width uint32 = some 32
repr_type_bit_width int32 = some 32
repr_type_bit_width uint64 = some 64
repr_type_bit_width int64 = some 64
repr_type_bit_width usize = none
repr_type_bit_width isize = none

-- `max_values` of `is_exhaustive_enum`.
unfoldable pub max_values : TagType → Option ℕ
max_values uint8 = some 256
max_values int8 = some 256
max_values uint16 = some 65536
max_values int16 = some 65536
max_values uint32 = some 4294967296
max_values int32 = some 4294967296
max_values _ = none

-- `num_variants as u64 == max_values`, where there is a maximum.
unfoldable pub reaches : ℕ → Option ℕ → Bool
reaches num_variants none = false
reaches num_variants (some n) = num_variants == n

-- `is_exhaustive_enum`.
unfoldable pub is_exhaustive_enum : ℕ → TagType → Bool
unfolding reaches max_values
is_exhaustive_enum num_variants repr = reaches num_variants (max_values repr)

-- What `enum_variant_tag_exprs` prints for a variant: its own discriminant, the last explicit one
-- plus an offset, or a literal.
pub data TagExpr : Type 0 where
  explicit : ℕ → TagExpr
  wrapping_add : ℕ → ℕ → TagExpr
  literal : ℕ → TagExpr

unfoldable pub tag_exprs_from : Option ℕ → ℕ → List (Option ℕ) → List TagExpr
tag_exprs_from last_explicit offset [] = []
tag_exprs_from last_explicit offset (some value ∷ vs) =
    explicit value ∷ tag_exprs_from (some value) 0 vs
tag_exprs_from (some value) offset (none ∷ vs) =
    wrapping_add value (suc offset) ∷ tag_exprs_from (some value) (suc offset) vs
tag_exprs_from none offset (none ∷ vs) = literal offset ∷ tag_exprs_from none (suc offset) vs

-- `enum_variant_tag_exprs`; a variant is its explicit discriminant, if it has one.
unfoldable pub enum_variant_tag_exprs : List (Option ℕ) → List TagExpr
unfolding tag_exprs_from
enum_variant_tag_exprs variants = tag_exprs_from none 0 variants

-- The value of a printed expression of type `tag_ty`.
unfoldable pub eval_tag : ℕ → TagExpr → ℕ
eval_tag w (explicit value) = value % 2 ^ w
eval_tag w (wrapping_add value offset) = (value % 2 ^ w + offset % 2 ^ w) % 2 ^ w
eval_tag w (literal value) = value % 2 ^ w

unfoldable pub eval_tags : ℕ → List TagExpr → List ℕ
eval_tags w [] = []
eval_tags w (e ∷ es) = eval_tag w e ∷ eval_tags w es

-- `wrapping_sub(1)` on `w` bits.
unfoldable pub wrapping_pred : ℕ → ℕ → ℕ
wrapping_pred w zero = 2 ^ w - 1
wrapping_pred w (suc t) = t

-- The condition of the printed loop: the candidate is none of the tags.
unfoldable pub is_free : ℕ → List ℕ → Bool
is_free t [] = true
is_free t (tag ∷ tags) = not (t == tag) && is_free t tags

-- The printed loop of `gen_enum_niche_tag`, on fuel.
unfoldable pub niche_tag_loop : ℕ → ℕ → ℕ → List ℕ → Option ℕ
niche_tag_loop zero w t tags = none
niche_tag_loop (suc fuel) w t tags =
    let next = niche_tag_loop fuel w (wrapping_pred w t) tags in
    if is_free t tags then some t else next

unfoldable pub any_explicit : List (Option ℕ) → Bool
any_explicit [] = false
any_explicit (some _ ∷ vs) = true
any_explicit (none ∷ vs) = any_explicit vs

-- Without discriminants: `0` if there is no variant, else `0.wrapping_sub(1)`.
implicit_niche : ℕ → List (Option ℕ) → ℕ
unfolding wrapping_pred
implicit_niche w [] = 0
implicit_niche w (_ ∷ _) = wrapping_pred w 0

-- The value of what `gen_enum_niche_tag` prints, within `fuel` rounds of its loop.
unfoldable pub gen_enum_niche_tag : ℕ → ℕ → List (Option ℕ) → Option ℕ
unfolding any_explicit implicit_niche enum_variant_tag_exprs eval_tags niche_tag_loop
gen_enum_niche_tag fuel w variants =
    if any_explicit variants
    then niche_tag_loop fuel w 0 (eval_tags w (enum_variant_tag_exprs variants))
    else some (implicit_niche w variants)
