-- ===== src/Derive/Repr/Laws.antt =====
-- What `parse_repr` accepts, and that the order of the parts does not matter.
use co.Prelude.{
  ℕ, true, Option, none, some, [], ◌∷◌, ◌==◌, if◌then◌else◌, ◌≡◌, ◌∙◌, sym, ap, refl, arith,
  Bool-cases, inl, inr,
}
use co.Derive.Tag.{TagType, uint8, int8, uint16, int16, uint32, int32, uint64, int64, usize, isize}
use co.Derive.Repr.{
  ReprKind, transparent, c_layout, primitive, kind_token, tag_index, tag_eq, kind_eq, merge_kind,
  list_attr, ParseState, push_error, set_kind, parse_token, parse_tokens, parse_attrs, finish_parse,
  parse_repr,
}

-- A left inverse of `tag_index`.
of_index : ℕ → TagType
of_index n =
    if n == 0
    then uint8
    else (if n == 1
        then int8
        else (if n == 2
            then uint16
            else (if n == 3
                then int16
                else (if n == 4
                    then uint32
                    else (if n == 5
                        then int32
                        else (if n == 6
                            then uint64
                            else (if n == 7 then int64 else (if n == 8 then usize else isize))))))))

of_index-tag_index : (a : TagType) → of_index (tag_index a) ≡ a
unfolding of_index tag_index
of_index-tag_index uint8 = refl
of_index-tag_index int8 = refl
of_index-tag_index uint16 = refl
of_index-tag_index int16 = refl
of_index-tag_index uint32 = refl
of_index-tag_index int32 = refl
of_index-tag_index uint64 = refl
of_index-tag_index int64 = refl
of_index-tag_index usize = refl
of_index-tag_index isize = refl

tag_eq_lem : (a b : TagType) (e : tag_eq a b ≡ true) → a ≡ b
unfolding tag_eq
tag_eq_lem a b e =
    let same : tag_index a ≡ tag_index b = ground arith in
    sym (of_index-tag_index a) ∙ (ap of_index same ∙ of_index-tag_index b)

tag_eq_sym : (a b : TagType) → tag_eq a b ≡ tag_eq b a
unfolding tag_eq
tag_eq_sym a b = ground arith

if_same :
    {K : Type 0} (f : TagType → K) (a b : TagType)
    → (if tag_eq a b then some (f a) else none) ≡ (if tag_eq b a then some (f b) else none)
if_same f a b = elim (Bool-cases (tag_eq a b)) [
  | inl e ↦ rw (tag_eq_lem a b e) refl
  | inr ne ↦ rw (ne, sym (tag_eq_sym a b) ∙ ne) refl
]

merge_kind_comm : (a b : ReprKind) → merge_kind (some a) b ≡ merge_kind (some b) a
unfolding merge_kind kind_eq
merge_kind_comm transparent transparent = refl
merge_kind_comm transparent (c_layout none) = refl
merge_kind_comm transparent (c_layout (some b)) = refl
merge_kind_comm transparent (primitive b) = refl
merge_kind_comm (c_layout none) transparent = refl
merge_kind_comm (c_layout none) (c_layout none) = refl
merge_kind_comm (c_layout none) (c_layout (some b)) = refl
merge_kind_comm (c_layout none) (primitive b) = refl
merge_kind_comm (c_layout (some a)) transparent = refl
merge_kind_comm (c_layout (some a)) (c_layout none) = refl
merge_kind_comm (c_layout (some a)) (c_layout (some b)) = if_same (λ x. c_layout (some x)) a b
merge_kind_comm (c_layout (some a)) (primitive b) = refl
merge_kind_comm (primitive a) transparent = refl
merge_kind_comm (primitive a) (c_layout none) = refl
merge_kind_comm (primitive a) (c_layout (some b)) = refl
merge_kind_comm (primitive a) (primitive b) = if_same primitive a b

module _ {ℓ} {L : Type ℓ} (base10_parse : L → Option ℕ) where
  first_kind : ReprKind → ParseState L
  first_kind kind = record { kind = some kind; alignment = none; errors = [] }

  set_kind_finish :
      (m : Option ReprKind) (a b : ReprKind)
      → let s = set_kind base10_parse m (first_kind a) in
        let t = set_kind base10_parse m (first_kind b) in
        finish_parse base10_parse s.errors s ≡ finish_parse base10_parse t.errors t
  unfolding set_kind push_error finish_parse first_kind
  set_kind_finish none a b = refl
  set_kind_finish (some kind) a b = refl

  -- Two kinds may be written in either order and in one attribute or two: the result, be it a
  -- layout or an error, is the same.
  pub parse_repr_kinds :
      (a b : ReprKind)
      → let one = λ (x y : ReprKind).
        parse_repr base10_parse (list_attr (some (kind_token x ∷ kind_token y ∷ [])) ∷ []) in
        (one a b ≡ one b a)
        × (parse_repr base10_parse
              (list_attr (some (kind_token a ∷ [])) ∷ list_attr (some (kind_token b ∷ [])) ∷ [])
            ≡ one a b)
  unfolding parse_repr parse_attrs parse_tokens parse_token set_kind merge_kind first_kind
  parse_repr_kinds a b =
      (rw (merge_kind_comm a b) (set_kind_finish (merge_kind (some b) a) a b), refl)
