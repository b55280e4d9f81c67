-- ===== src/Derive/ReprC/Zero.antt =====
-- The tag zero: what the printed checks say of an enum that is accepted.
use co.Prelude.{
  ◌⊎◌, Bool-cases, ℕ, suc, Bool, true, false, not, ◌&&◌, Option, none, some, ok, and_then-ok,
  ok_inj, List, [], ◌∷◌, length, ◌==◌, if◌then◌else◌, ◌≡◌, ◌∙◌, refl, sym, ap, arith, inl, inr,
  Option-cases, cons_cong,
}
use co.Derive.Tag.{
  TagExpr, eval_tag, eval_tags, enum_variant_tag_exprs, tag_exprs_from, is_free, any_explicit,
  niche_tag_loop, gen_enum_niche_tag,
}
use co.Derive.Tag.Laws.{discriminants, enum_variant_tag_exprs_lem}
use co.Derive.Repr.{ReprKind}
use co.Derive.ReprC.{ReprCAttrs, parse_repr_c_attrs}
use co.Derive.ReprC.Input.{Variant, enum_data, DeriveError, exhaustive}
use co.Derive.ReprC.Checks.{VariantReprCAttrs, check_variants, attr_stop}
use co.Derive.ReprC.Expand.{
  ZeroCheck, zip_checks, discriminants_of, needs_zero_check, checks_unless, zero_checks, Plan,
  derive_checked,
}
use co.Derive.ReprC.Marked.{
  flags, any_marked, has_spare_tags, has_spare_tags-needs, zero_messages-none,
}
use co.Derive.ReprC.Accepted.{derive_checked_parts}

-- Whether the compiler accepts the printed assertions, for tags of `w` bits.
unfoldable pub passes : ℕ → List ZeroCheck → Bool
unfolding eval_tag
passes w [] = true
passes w ((allowed, e) ∷ checks) =
    (if allowed then eval_tag w e == 0 else not (eval_tag w e == 0)) && passes w checks

unfoldable pub are_zero : List ℕ → List Bool
are_zero [] = []
are_zero (t ∷ tags) = (t == 0) ∷ are_zero tags

flag_test :
    (allowed zero_tag rest : Bool)
    (pass : ((if allowed then zero_tag else not zero_tag) && rest) ≡ true)
    → (allowed ≡ zero_tag) × (rest ≡ true)
flag_test true true rest pass = (refl, pass)
flag_test false false rest pass = (refl, pass)
flag_test true false rest pass = cc
flag_test false true rest pass = cc

passes-flags :
    (w : ℕ) (attrs : List VariantReprCAttrs) (tags : List TagExpr)
    (same : length attrs ≡ length tags) (pass : passes w (zip_checks attrs tags) ≡ true)
    → flags attrs ≡ are_zero (eval_tags w tags)
unfolding passes flags are_zero zip_checks eval_tags
passes-flags w [] [] same pass = refl
passes-flags w [] (e ∷ tags) same pass = ground arith
passes-flags w (a ∷ attrs) [] same pass = ground arith
passes-flags w (a ∷ attrs) (e ∷ tags) same pass =
    let (head, rest) =
      flag_test a.allow_zero_tag (eval_tag w e == 0) (passes w (zip_checks attrs tags)) pass in
    cons_cong head (passes-flags w attrs tags (ground arith) rest)

length-check_variants :
    (a : ReprCAttrs) (i : ℕ) (variants : List Variant) (attrs : List VariantReprCAttrs)
    (es : List DeriveError) (checked : check_variants a i variants ≡ ok (attrs, es))
    → length attrs ≡ length variants
unfolding check_variants
length-check_variants a i [] attrs es checked = ground arith
length-check_variants a i (v ∷ variants) attrs es checked =
    let (va, parsed, later) =
      and_then-ok (attr_stop (parse_repr_c_attrs v.attrs)) _ (attrs, es) checked in
    let (found, rest, done) = and_then-ok (check_variants a (suc i) variants) _ (attrs, es) later in
    let same = length-check_variants a (suc i) variants found.0 found.1 rest in
    ground (arith, same, ap (λ t. length t.0) (ok_inj done))

length-tag_exprs :
    (last : Option ℕ) (offset : ℕ) (variants : List Variant)
    → length (tag_exprs_from last offset (discriminants_of variants)) ≡ length variants
unfolding tag_exprs_from discriminants_of
length-tag_exprs last offset [] = refl
length-tag_exprs last offset (v ∷ variants) = elim (Option-cases v.discriminant) [
  | inl implicit ↦ (elim (Option-cases last) [
    | inl first ↦ rw (implicit, first) (ap suc (length-tag_exprs none (suc offset) variants))
    | inr (value, earlier) ↦
        rw (implicit, earlier) (ap suc (length-tag_exprs (some value) (suc offset) variants))
  ])
  | inr (value, explicit) ↦ rw (explicit) (ap suc (length-tag_exprs (some value) 0 variants))
]

zero_checks-zip :
    (repr : Option ReprKind) (variants : List Variant) (attrs : List VariantReprCAttrs)
    (checks : List ZeroCheck) (needs : needs_zero_check repr variants ≡ true)
    (open_tags : exhaustive repr (length variants) ≡ some false)
    (printed : zero_checks repr variants attrs ≡ ok checks)
    → checks ≡ zip_checks attrs (enum_variant_tag_exprs (discriminants_of variants))
unfolding zero_checks checks_unless
zero_checks-zip repr variants attrs checks needs open_tags printed =
    let whole : zero_checks repr variants attrs
        ≡ ok (zip_checks attrs (enum_variant_tag_exprs (discriminants_of variants))) =
      rw (needs, open_tags) refl in
    ok_inj (sym printed ∙ whole)

flags-checked :
    (w : ℕ) (a : ReprCAttrs) (repr : Option ReprKind) (variants : List Variant)
    (attrs : List VariantReprCAttrs) (es : List DeriveError) (checks : List ZeroCheck)
    (checked : check_variants a 0 variants ≡ ok (attrs, es))
    (needs : needs_zero_check repr variants ≡ true)
    (open_tags : exhaustive repr (length variants) ≡ some false)
    (printed : zero_checks repr variants attrs ≡ ok checks) (pass : passes w checks ≡ true)
    → flags attrs ≡ are_zero (discriminants w 0 (discriminants_of variants))
unfolding enum_variant_tag_exprs
flags-checked w a repr variants attrs es checks checked needs open_tags printed pass =
    let tags = enum_variant_tag_exprs (discriminants_of variants) in
    passes-flags w attrs tags
      (length-check_variants a 0 variants attrs es checked ∙ sym (length-tag_exprs none 0 variants))
      (sym (ap (passes w) (zero_checks-zip repr variants attrs checks needs open_tags printed))
        ∙ pass)
    ∙ ap are_zero (enum_variant_tag_exprs_lem w (discriminants_of variants))

is_free-are_zero : (tags : List ℕ) → is_free 0 tags ≡ not (any_marked (are_zero tags))
unfolding is_free any_marked are_zero
is_free-are_zero [] = refl
is_free-are_zero (t ∷ tags) = ground (arith, is_free-are_zero tags)

attrs_unique :
    {attrs attrs' : List VariantReprCAttrs} {es es' : List DeriveError} (variants : List Variant)
    (a : ReprCAttrs) (checked : check_variants a 0 variants ≡ ok (attrs, es))
    (again : check_variants a 0 variants ≡ ok (attrs', es'))
    → attrs' ≡ attrs
attrs_unique variants a checked again = ap (λ t. t.0) (ok_inj (sym again ∙ checked))

-- An enum that is not `repr_c(transparent)`, that the derive accepts, and whose printed assertions hold
-- for tags of `w` bits. Where it is fieldless or has an integer representation, is not a single
-- fieldless variant, and has tags left over, the variants marked `allow_zero_tag` are exactly those whose
-- tag is zero, and zero is the tag of no variant exactly if none is marked. In every other case no
-- variant is marked.
pub derive_zero_tag :
    (w : ℕ) (a : ReprCAttrs) (repr : Option ReprKind) (variants : List Variant) (plan : Plan)
    (attrs : List VariantReprCAttrs) (es : List DeriveError) (opaque : a.is_transparent ≡ false)
    (accepted : derive_checked a repr (enum_data variants) ≡ ok plan)
    (checked : check_variants a 0 variants ≡ ok (attrs, es)) (pass : passes w plan.checks ≡ true)
    → let tags = discriminants w 0 (discriminants_of variants) in
      ((has_spare_tags repr variants ≡ true)
        × (flags attrs ≡ are_zero tags)
        × (is_free 0 tags ≡ not (any_marked (flags attrs))))
      ⊎ ((has_spare_tags repr variants ≡ false) × (any_marked (flags attrs) ≡ false))
derive_zero_tag w a repr variants plan attrs es opaque accepted checked pass =
    let (attrs', es', again, parts) = derive_checked_parts a repr variants plan opaque accepted in
    let unique = attrs_unique variants a checked again in
    elim (Bool-cases (has_spare_tags repr variants)) [
      | inl spare ↦
          (let (needs, open_tags) = has_spare_tags-needs repr variants spare parts.inhabited in
            let same =
              ap flags (sym unique)
              ∙ flags-checked w a repr variants attrs' es' plan.checks again needs open_tags
                  parts.printed pass in
            inl (
              spare,
              same,
              is_free-are_zero (discriminants w 0 (discriminants_of variants))
                  ∙ ap (λ bs. not (any_marked bs)) (sym same),
            ))
      | inr spent ↦ inr (
        spent,
        ap (λ t. any_marked (flags t)) (sym unique)
            ∙ zero_messages-none repr variants 0 attrs' parts.plain parts.silent spent,
      )
    ]

loop_first :
    (fuel w : ℕ) (tags : List ℕ) (free : is_free 0 tags ≡ true)
    → niche_tag_loop (suc fuel) w 0 tags ≡ some 0
unfolding niche_tag_loop
loop_first fuel w tags free = rw (free) refl

-- Where zero is the tag of no variant and some discriminant is written, the niche is zero.
pub gen_enum_niche_tag_zero :
    (fuel w : ℕ) (vs : List (Option ℕ)) (explicit : any_explicit vs ≡ true)
    (free : is_free 0 (discriminants w 0 vs) ≡ true)
    → gen_enum_niche_tag (suc fuel) w vs ≡ some 0
unfolding gen_enum_niche_tag
gen_enum_niche_tag_zero fuel w vs explicit free = rw (explicit) (
    loop_first fuel w (eval_tags w (enum_variant_tag_exprs vs))
      (ap (is_free 0) (enum_variant_tag_exprs_lem w vs) ∙ free))
