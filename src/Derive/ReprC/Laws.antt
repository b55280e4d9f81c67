-- ===== src/Derive/ReprC/Laws.antt =====
-- `derive_repr_c` returns: none of its `unreachable!` and none of its indexings is reached.
use co.Prelude.{
  ℕ, suc, Bool, true, false, not, ◌&&◌, ◌||◌, Option, none, some, is_some, Result, ok, err,
  and_then, List, [], ◌∷◌, ◌++◌, length, ◌==◌, if◌then◌else◌, ◌≡◌, refl, arith,
}
use co.Derive.Repr.{ReprKind}
use co.Derive.ReprC.{ReprCAttrs, AttrError, parse_repr_c_attrs}
use co.Derive.ReprC.Input.{
  Variant, Data, struct_data, enum_data, union_data, DeriveError, Stop, errors, panicked,
  fields_len, all_unit, is_empty, has_integer_repr, is_plain_c, is_transparent_repr,
  is_transparent_enum_repr, exhaustive, enum_tag_type,
}
use co.Derive.ReprC.Checks.{
  is_enum, is_fieldless_enum, first_fields, transparent_fields_of, check_transparent,
  transparent_checks, identity_data, identity_checks, decide, VariantReprCAttrs, check_variants,
  attr_stop,
}
use co.Derive.ReprC.Expand.{
  needs_zero_check, zero_checks, checks_unless, choose_item, is_empty_enum, zero_message,
  zero_messages, data_checks, choose, no_errors, derive_checked, ZeroCheck,
}

-- That a computation ends with a value or with at least one error, and does not panic.
abbrev pub Returns {ℓ} : {T : Type ℓ} → Result T Stop → Type 0
Returns (ok t) = Unit
Returns (err (errors [])) = ⊥
Returns (err (errors (e ∷ es))) = Unit
Returns (err panicked) = ⊥

pub and_then-Returns {ℓ κ} :
    {T : Type ℓ} {U : Type κ} (r : Result T Stop) (f : T → Result U Stop) (first : Returns r)
    (rest : (t : T) → r ≡ ok t → Returns (f t))
    → Returns (and_then r f)
and_then-Returns (ok t) f first rest = rest t refl
and_then-Returns (err (errors [])) f first rest = first
and_then-Returns (err (errors (e ∷ es))) f first rest = tt
and_then-Returns (err panicked) f first rest = first

if-Returns {ℓ} :
    {T : Type ℓ} (b : Bool) (x y : Result T Stop) (left : b ≡ true → Returns x)
    (right : b ≡ false → Returns y)
    → Returns (if b then x else y)
if-Returns true x y left right = left refl
if-Returns false x y left right = right refl

first_fields-Returns :
    (variants : List Variant)
    (some_variant : (length variants == 1 || is_fieldless_enum (enum_data variants)) ≡ true)
    → Returns (first_fields variants)
unfolding first_fields is_fieldless_enum
first_fields-Returns [] some_variant = ground (arith, some_variant)
first_fields-Returns (v ∷ variants) some_variant = tt

fields_of-Returns : (body : Data) → Returns (transparent_fields_of body)
unfolding transparent_fields_of
fields_of-Returns (struct_data fields) = tt
fields_of-Returns (enum_data variants) =
    if-Returns (length variants == 1 || is_fieldless_enum (enum_data variants)) _ _
      (first_fields-Returns variants) (λ h. tt)
fields_of-Returns union_data = tt

transparent-Returns :
    (a : ReprCAttrs) (repr : Option ReprKind) (body : Data)
    → Returns (transparent_checks a repr body)
unfolding transparent_checks check_transparent
transparent-Returns a repr body =
    if-Returns (not a.is_transparent) _ _ (λ h. tt)
      (λ h.
        if-Returns (a.is_identity || a.is_view || a.is_wide_data) _ _ (λ k. tt)
          (λ k.
            and_then-Returns (transparent_fields_of body) _ (fields_of-Returns body) (λ fields e.
              if-Returns
                (not (fields_len fields == 1) && not (is_enum body && fields_len fields == 0)) _ _
                (λ m. tt)
                (λ m.
                  if-Returns
                    (is_enum body && not (is_fieldless_enum body) && not (is_transparent_repr repr))
                    _ _ (λ n. tt) (λ n. tt)))))

decide-Returns :
    (test : Option Bool) (xs ys : List DeriveError) (known : is_some test ≡ true)
    → Returns (decide test xs ys)
unfolding decide
decide-Returns none xs ys known = cc
decide-Returns (some true) xs ys known = tt
decide-Returns (some false) xs ys known = tt

-- The tag type is known where the representation is an integer.
exhaustive_integer :
    (repr : Option ReprKind) (n : ℕ) (integer : has_integer_repr repr ≡ true)
    → is_some (exhaustive repr n) ≡ true
unfolding exhaustive enum_tag_type has_integer_repr
exhaustive_integer none n integer = refl
exhaustive_integer (some ReprKind.transparent) n integer = cc
exhaustive_integer (some (ReprKind.c_layout none)) n integer = cc
exhaustive_integer (some (ReprKind.c_layout (some prim))) n integer = refl
exhaustive_integer (some (ReprKind.primitive prim)) n integer = refl

-- And where it is neither plain `C` nor transparent.
exhaustive_other :
    (repr : Option ReprKind) (n : ℕ) (not_c : is_plain_c repr ≡ false)
    (not_transparent : is_transparent_repr repr ≡ false)
    → is_some (exhaustive repr n) ≡ true
unfolding exhaustive enum_tag_type is_plain_c is_transparent_repr
exhaustive_other none n not_c not_transparent = refl
exhaustive_other (some ReprKind.transparent) n not_c not_transparent = cc
exhaustive_other (some (ReprKind.c_layout none)) n not_c not_transparent = cc
exhaustive_other (some (ReprKind.c_layout (some prim))) n not_c not_transparent = refl
exhaustive_other (some (ReprKind.primitive prim)) n not_c not_transparent = refl

identity_data-Returns : (repr : Option ReprKind) (body : Data) → Returns (identity_data repr body)
unfolding identity_data
identity_data-Returns repr (struct_data fields) = tt
identity_data-Returns repr (enum_data variants) =
    if-Returns (has_integer_repr repr) _ _
      (λ h.
        decide-Returns (exhaustive repr (length variants)) _ _
          (exhaustive_integer repr (length variants) h))
      (λ h. tt)
identity_data-Returns repr union_data = tt

identity-Returns :
    (a : ReprCAttrs) (repr : Option ReprKind) (body : Data) → Returns (identity_checks a repr body)
unfolding identity_checks
identity-Returns a repr body =
    if-Returns (not a.is_identity) _ _ (λ h. tt)
      (λ h.
        and_then-Returns (identity_data repr body) _ (identity_data-Returns repr body) (λ es e. tt))

pub attr_stop-Returns : (r : Result ReprCAttrs AttrError) → Returns (attr_stop r)
unfolding attr_stop
attr_stop-Returns (ok a) = tt
attr_stop-Returns (err e) = tt

check_variants-Returns :
    (a : ReprCAttrs) (i : ℕ) (variants : List Variant) → Returns (check_variants a i variants)
unfolding check_variants
check_variants-Returns a i [] = tt
check_variants-Returns a i (v ∷ variants) =
    and_then-Returns (attr_stop (parse_repr_c_attrs v.attrs)) _
      (attr_stop-Returns (parse_repr_c_attrs v.attrs))
      (λ va e.
        and_then-Returns (check_variants a (suc i) variants) _
          (check_variants-Returns a (suc i) variants) (λ rest f. tt))

needs-other :
    (repr : Option ReprKind) (variants : List Variant)
    (needs : needs_zero_check repr variants ≡ true)
    → (is_plain_c repr ≡ false) × (is_transparent_repr repr ≡ false)
unfolding needs_zero_check is_transparent_enum_repr is_plain_c is_transparent_repr
needs-other none variants needs = (refl, refl)
needs-other (some ReprKind.transparent) variants needs = (refl, ground arith)
needs-other (some (ReprKind.c_layout none)) variants needs = (ground arith, refl)
needs-other (some (ReprKind.c_layout (some prim))) variants needs = (refl, refl)
needs-other (some (ReprKind.primitive prim)) variants needs = (refl, refl)

checks_unless-Returns :
    (test : Option Bool) (checks : List ZeroCheck) (known : is_some test ≡ true)
    → Returns (checks_unless test checks)
unfolding checks_unless
checks_unless-Returns none checks known = cc
checks_unless-Returns (some true) checks known = tt
checks_unless-Returns (some false) checks known = tt

zero_checks-Returns :
    (repr : Option ReprKind) (variants : List Variant) (attrs : List VariantReprCAttrs)
    → Returns (zero_checks repr variants attrs)
unfolding zero_checks
zero_checks-Returns repr variants attrs =
    if-Returns (needs_zero_check repr variants) _ _
      (λ needs.
        let (not_c, not_transparent) = needs-other repr variants needs in
        checks_unless-Returns (exhaustive repr (length variants)) _
          (exhaustive_other repr (length variants) not_c not_transparent))
      (λ h. tt)

zero_message-Returns :
    (repr : Option ReprKind) (variants : List Variant) (i : ℕ)
    → Returns (zero_message repr variants i)
unfolding zero_message
zero_message-Returns repr variants i =
    if-Returns (is_transparent_repr repr) _ _ (λ h. tt)
      (λ not_transparent.
        if-Returns (all_unit variants && length variants == 1) _ _ (λ h. tt)
          (λ h.
            if-Returns (not (all_unit variants) && not (has_integer_repr repr)) _ _ (λ k. tt)
              (λ k.
                if-Returns (is_plain_c repr) _ _ (λ m. tt)
                  (λ not_c.
                    decide-Returns (exhaustive repr (length variants)) _ _
                      (exhaustive_other repr (length variants) not_c not_transparent)))))

zero_messages-Returns :
    (repr : Option ReprKind) (variants : List Variant) (i : ℕ) (attrs : List VariantReprCAttrs)
    → Returns (zero_messages repr variants i attrs)
unfolding zero_messages
zero_messages-Returns repr variants i [] = tt
zero_messages-Returns repr variants i (a ∷ attrs) =
    and_then-Returns (if a.allow_zero_tag then zero_message repr variants i else ok []) _
      (if-Returns a.allow_zero_tag _ _ (λ h. zero_message-Returns repr variants i) (λ h. tt))
      (λ es e.
        and_then-Returns (zero_messages repr variants (suc i) attrs) _
          (zero_messages-Returns repr variants (suc i) attrs) (λ more f. tt))

data-Returns :
    (a : ReprCAttrs) (repr : Option ReprKind) (body : Data) → Returns (data_checks a repr body)
unfolding data_checks
data-Returns a repr (struct_data fields) = tt
data-Returns a repr (enum_data variants) =
    and_then-Returns (check_variants a 0 variants) _ (check_variants-Returns a 0 variants)
      (λ (attrs, es) e.
        and_then-Returns (zero_checks repr variants attrs) _
          (zero_checks-Returns repr variants attrs)
          (λ checks f.
            and_then-Returns (zero_messages repr variants 0 attrs) _
              (zero_messages-Returns repr variants 0 attrs) (λ messages g. tt)))
data-Returns a repr union_data = tt

no_errors-Returns : (es : List DeriveError) → Returns (no_errors es)
unfolding no_errors
no_errors-Returns [] = tt
no_errors-Returns (e ∷ es) = tt

item-Returns :
    (a : ReprCAttrs) (repr : Option ReprKind) (body : Data) (checks : List ZeroCheck)
    (found : List DeriveError × List ZeroCheck) (checked : data_checks a repr body ≡ ok found)
    → Returns (choose_item a.is_identity body checks)
unfolding choose_item data_checks
item-Returns a repr (struct_data fields) checks found checked = tt
item-Returns a repr (enum_data variants) checks found checked =
    if-Returns (is_empty variants) _ _ (λ h. tt)
      (λ h.
        if-Returns a.is_identity _ _ (λ k. tt)
          (λ k. if-Returns (all_unit variants) _ _ (λ m. tt) (λ m. tt)))
item-Returns a repr union_data checks found checked = cc

pub checked-Returns :
    (a : ReprCAttrs) (repr : Option ReprKind) (body : Data) → Returns (derive_checked a repr body)
unfolding derive_checked choose
checked-Returns a repr body =
    and_then-Returns (transparent_checks a repr body) _ (transparent-Returns a repr body) (λ es e.
      and_then-Returns (identity_checks a repr body) _ (identity-Returns a repr body) (λ es' e'.
        and_then-Returns (data_checks a repr body) _ (data-Returns a repr body) (λ found e''.
          and_then-Returns (no_errors (es ++ (es' ++ found.0))) _
            (no_errors-Returns (es ++ (es' ++ found.0)))
            (λ u h.
              if-Returns (a.is_transparent && not (is_empty_enum body)) _ _ (λ k. tt)
                (λ k. item-Returns a repr body found.1 found e'')))))
