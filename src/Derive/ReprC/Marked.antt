-- ===== src/Derive/ReprC/Marked.antt =====
-- Where the derive accepts variants that are marked `allow_zero_tag`.
use co.Prelude.{
  append_empty, ℕ, suc, Bool, true, false, not, ◌&&◌, ◌||◌, Option, none, some, ok, and_then-ok,
  ok_inj, List, [], ◌∷◌, length, ◌==◌, if◌then◌else◌, ◌≡◌, ◌∙◌, refl, sym, ap, arith, inl, inr,
  Bool-cases,
}
use co.Derive.Repr.{ReprKind}
use co.Derive.ReprC.Input.{
  Variant, all_unit, is_empty, has_integer_repr, is_plain_c, is_transparent_enum_repr,
  enum_tag_type, exhaustive,
}
use co.Derive.ReprC.Checks.{VariantReprCAttrs, decide}
use co.Derive.ReprC.Expand.{needs_zero_check, zero_message, zero_messages}

-- The flags of the variants.
unfoldable pub flags : List VariantReprCAttrs → List Bool
flags [] = []
flags (a ∷ attrs) = a.allow_zero_tag ∷ flags attrs

-- Whether some variant is marked.
unfoldable pub any_marked : List Bool → Bool
any_marked [] = false
any_marked (b ∷ bs) = b || any_marked bs

abbrev is_some_false : Option Bool → Bool
is_some_false (some false) = true
is_some_false (some true) = false
is_some_false none = false

-- Whether an enum has a tag of an integer type with tags left over: it is fieldless or has an integer
-- representation, is not a single fieldless variant, and does not use up the tags.
unfoldable pub has_spare_tags : Option ReprKind → List Variant → Bool
has_spare_tags repr variants =
    (all_unit variants || has_integer_repr repr)
    && (not (all_unit variants && length variants == 1)
        && is_some_false (exhaustive repr (length variants)))

-- Such an enum that is not empty is one whose tags are asserted.
pub has_spare_tags-needs :
    (repr : Option ReprKind) (variants : List Variant) (spare : has_spare_tags repr variants ≡ true)
    (inhabited : is_empty variants ≡ false)
    → (needs_zero_check repr variants ≡ true) × (exhaustive repr (length variants) ≡ some false)
unfolding has_spare_tags needs_zero_check exhaustive enum_tag_type is_plain_c
    is_transparent_enum_repr has_integer_repr
has_spare_tags-needs none variants spare inhabited = ground (arith, spare, inhabited)
has_spare_tags-needs (some ReprKind.transparent) variants spare inhabited = ground (arith, spare)
has_spare_tags-needs (some (ReprKind.c_layout none)) variants spare inhabited =
    ground (arith, spare)
has_spare_tags-needs (some (ReprKind.c_layout (some tag))) variants spare inhabited =
    ground (arith, spare, inhabited)
has_spare_tags-needs (some (ReprKind.primitive tag)) variants spare inhabited =
    ground (arith, spare, inhabited)

-- A marked variant without a message.
zero_message-none :
    (repr : Option ReprKind) (variants : List Variant) (i : ℕ) (plain : is_plain_c repr ≡ false)
    (silent : zero_message repr variants i ≡ ok [])
    → has_spare_tags repr variants ≡ true
unfolding has_spare_tags zero_message decide
zero_message-none repr variants i plain silent = ground (arith, plain, silent)

-- Without a message, either there are tags left over or no variant is marked.
pub zero_messages-none :
    (repr : Option ReprKind) (variants : List Variant) (i : ℕ) (attrs : List VariantReprCAttrs)
    (plain : is_plain_c repr ≡ false) (silent : zero_messages repr variants i attrs ≡ ok [])
    (spent : has_spare_tags repr variants ≡ false)
    → any_marked (flags attrs) ≡ false
unfolding zero_messages any_marked flags
zero_messages-none repr variants i [] plain silent spent = refl
zero_messages-none repr variants i (a ∷ attrs) plain silent spent =
    let (es, first, later) =
      and_then-ok (if a.allow_zero_tag then zero_message repr variants i else ok []) _ [] silent in
    let (more, rest, whole) = and_then-ok (zero_messages repr variants (suc i) attrs) _ [] later in
    let (no_es, no_more) = append_empty es more (ok_inj whole) in
    let others =
      zero_messages-none repr variants (suc i) attrs plain (rest ∙ ap ok no_more) spent in
    elim (Bool-cases a.allow_zero_tag) [
      | inl marked ↦
          (let here : zero_message repr variants i ≡ ok [] =
              sym (rw (marked) refl) ∙ (first ∙ ap ok no_es) in
            ground (arith, zero_message-none repr variants i plain here, spent))
      | inr unmarked ↦ rw (unmarked) others
    ]
