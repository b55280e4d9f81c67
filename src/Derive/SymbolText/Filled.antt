-- ===== src/Derive/SymbolText/Filled.antt =====
-- What the substitution of the holes does to a template, and that it leaves a plain symbol.
use co.Prelude.{
  ℕ, suc, Bool, true, false, not, ◌&&◌, none, List, [], ◌∷◌, ◌++◌, length, ◌==◌, if◌then◌else◌, ok,
  ◌≡◌, ◌≢◌, ◌∙◌, refl, sym, ap, arith, inl, inr, append_cong, cons_cong, Bool-cases,
}
use co.Derive.Symbol.{is_ascii_alphanumeric, keep}
use co.Derive.SymbolText.{
  Text, all_keep, is_name, text_eq, member, interpolations, starts_with, replace_from, replace_hole,
  interpolate_symbol, check_text, validate_symbol_text, validate_static_symbol_interpolations,
}
use co.Derive.SymbolText.Laws.{
  Segment, char, hole, print, is_template, holes, is_name_kept, and_left, and_right, and_both,
  validate_symbol_text_iff,
}
use co.Derive.SymbolText.Bound.{
  interpolations-print, text_eq_lem, text_eq_refl, validate_static_symbol_interpolations-member,
}

-- The segments of a fragment.
unfoldable pub chars : Text → List Segment
chars [] = []
chars (c ∷ fragment) = char c ∷ chars fragment

-- The template with a fragment in the holes of one name.
unfoldable pub fill : Text → Text → List Segment → List Segment
unfolding chars text_eq
fill ident fragment [] = []
fill ident fragment (char c ∷ segments) = char c ∷ fill ident fragment segments
fill ident fragment (hole name ∷ segments) =
    let rest = fill ident fragment segments in
    if text_eq ident name then chars fragment ++ rest else hole name ∷ rest

-- The template with every fragment filled in.
unfoldable pub fill_all : List (Text × Text) → List Segment → List Segment
unfolding fill
fill_all [] segments = segments
fill_all ((ident, fragment) ∷ subst) segments = fill_all subst (fill ident fragment segments)

print-chars :
    (fragment : Text) (segments : List Segment)
    → print (chars fragment ++ segments) ≡ fragment ++ print segments
unfolding print chars
print-chars [] segments = refl
print-chars (c ∷ fragment) segments = cons_cong refl (print-chars fragment segments)

template-chars :
    (fragment : Text) (segments : List Segment) (kept : all_keep fragment ≡ true)
    → is_template (chars fragment ++ segments) ≡ is_template segments
unfolding is_template chars all_keep
template-chars [] segments kept = refl
template-chars (c ∷ fragment) segments kept = ground (
  arith,
  template-chars fragment segments (and_right (keep c) (all_keep fragment) kept),
  and_left (keep c) (all_keep fragment) kept,
)

holes-chars :
    (fragment : Text) (segments : List Segment)
    → holes (chars fragment ++ segments) ≡ holes segments
unfolding holes chars
holes-chars [] segments = refl
holes-chars (c ∷ fragment) segments = holes-chars fragment segments

fill-template :
    (ident fragment : Text) (segments : List Segment) (kept : all_keep fragment ≡ true)
    (template : is_template segments ≡ true)
    → is_template (fill ident fragment segments) ≡ true
unfolding fill is_template
fill-template ident fragment [] kept template = refl
fill-template ident fragment (char c ∷ segments) kept template =
    and_both (keep c) (is_template (fill ident fragment segments))
      (and_left (keep c) (is_template segments) template)
      (fill-template ident fragment segments kept
        (and_right (keep c) (is_template segments) template))
fill-template ident fragment (hole name ∷ segments) kept template =
    let rest =
      fill-template ident fragment segments kept
        (and_right (is_name name) (is_template segments) template) in
    ground (
      arith,
      rest,
      and_left (is_name name) (is_template segments) template,
      template-chars fragment (fill ident fragment segments) kept,
    )

-- The holes that are left are those of the other names.
holes-fill :
    (ident fragment name : Text) (segments : List Segment)
    → member name (holes (fill ident fragment segments))
      ≡ (member name (holes segments) && not (text_eq ident name))
unfolding holes fill member
holes-fill ident fragment name [] = refl
holes-fill ident fragment name (char c ∷ segments) = holes-fill ident fragment name segments
holes-fill ident fragment name (hole other ∷ segments) = elim (Bool-cases (text_eq ident other)) [
  | inl same ↦ ground (
    arith,
    ap (λ t. text_eq t name) (text_eq_lem ident other same),
    ap (member name) (holes-chars fragment (fill ident fragment segments)),
    holes-fill ident fragment name segments,
  )
  | inr differs ↦ elim (Bool-cases (text_eq other name)) [
    | inl named ↦ ground (
      arith,
      ap (text_eq ident) (text_eq_lem other name named),
      holes-fill ident fragment name segments,
    )
    | inr not_named ↦ ground (arith, holes-fill ident fragment name segments)
  ]
]

-- The pattern of a hole starts a hole of the same name only.
starts_with-hole :
    (ident name rest : Text) (kept : all_keep name ≡ true) (ident_kept : all_keep ident ≡ true)
    → starts_with (ident ++ (b'}' ∷ [])) (name ++ (b'}' ∷ rest)) ≡ text_eq ident name
unfolding starts_with text_eq all_keep keep is_ascii_alphanumeric
starts_with-hole [] [] rest kept ident_kept = refl
starts_with-hole [] (d ∷ name) rest kept ident_kept =
    ground (arith, and_left (keep d) (all_keep name) kept)
starts_with-hole (c ∷ ident) [] rest kept ident_kept =
    ground (arith, and_left (keep c) (all_keep ident) ident_kept)
starts_with-hole (c ∷ ident) (d ∷ name) rest kept ident_kept =
    ap (λ t. (c == d) && t)
      (starts_with-hole ident name rest (and_right (keep d) (all_keep name) kept)
        (and_right (keep c) (all_keep ident) ident_kept))

-- The characters that belong to a match are skipped.
replace_from-skip :
    (n : ℕ) (pattern fragment name rest : Text)
    → replace_from n pattern fragment (suc (length name)) (name ++ (b'}' ∷ rest))
      ≡ replace_from n pattern fragment 0 rest
unfolding replace_from
replace_from-skip n pattern fragment [] rest = refl
replace_from-skip n pattern fragment (c ∷ name) rest =
    replace_from-skip n pattern fragment name rest

-- The name of another hole is copied.
replace_from-copy :
    (n : ℕ) (ident fragment name ys : Text) (kept : all_keep name ≡ true)
    → replace_from n (b'{' ∷ ident) fragment 0 (name ++ (b'}' ∷ ys))
      ≡ name ++ (b'}' ∷ replace_from n (b'{' ∷ ident) fragment 0 ys)
unfolding replace_from starts_with all_keep keep is_ascii_alphanumeric
replace_from-copy n ident fragment [] ys kept = refl
replace_from-copy n ident fragment (c ∷ name) ys kept = ground (
  arith,
  replace_from-copy n ident fragment name ys (and_right (keep c) (all_keep name) kept),
  and_left (keep c) (all_keep name) kept,
)

-- A hole is replaced as a whole, or copied as a whole.
replace_hole-hole :
    (ident fragment name rest : Text) (kept : all_keep name ≡ true)
    (ident_kept : all_keep ident ≡ true)
    → replace_hole ident fragment (b'{' ∷ (name ++ (b'}' ∷ rest))) ≡ (
        if text_eq ident name
        then fragment ++ replace_hole ident fragment rest
        else b'{' ∷ (name ++ (b'}' ∷ replace_hole ident fragment rest)))
unfolding replace_hole replace_from starts_with
replace_hole-hole ident fragment name rest kept ident_kept =
    elim (Bool-cases (text_eq ident name)) [
      | inl same ↦
          rw (starts_with-hole ident name rest kept ident_kept, same)
            (append_cong refl (
              ap
                (λ k.
                  replace_from (suc (length ident)) (b'{' ∷ (ident ++ (b'}' ∷ []))) fragment
                    (suc (length k)) (name ++ (b'}' ∷ rest)))
                (text_eq_lem ident name same)
              ∙ replace_from-skip (suc (length ident)) (b'{' ∷ (ident ++ (b'}' ∷ []))) fragment name
                  rest))
      | inr differs ↦
          rw (starts_with-hole ident name rest kept ident_kept, differs)
            (cons_cong refl (
              replace_from-copy (suc (length ident)) (ident ++ (b'}' ∷ [])) fragment name rest
                kept))
    ]

-- A character outside of the braces is copied.
replace_hole-char :
    (ident fragment : Text) (c : ℕ) (rest : Text) (kept : keep c ≡ true)
    → replace_hole ident fragment (c ∷ rest) ≡ c ∷ replace_hole ident fragment rest
unfolding replace_hole replace_from starts_with keep is_ascii_alphanumeric
replace_hole-char ident fragment c rest kept = ground arith

-- The replacement in the text of a template is the text of the filled template.
pub replace_hole-print :
    (ident fragment : Text) (segments : List Segment) (ident_kept : all_keep ident ≡ true)
    (template : is_template segments ≡ true)
    → replace_hole ident fragment (print segments) ≡ print (fill ident fragment segments)
unfolding print fill is_template replace_hole replace_from
replace_hole-print ident fragment [] ident_kept template = refl
replace_hole-print ident fragment (char c ∷ segments) ident_kept template =
    replace_hole-char ident fragment c (print segments)
      (and_left (keep c) (is_template segments) template)
    ∙ cons_cong refl (
        replace_hole-print ident fragment segments ident_kept
          (and_right (keep c) (is_template segments) template))
replace_hole-print ident fragment (hole name ∷ segments) ident_kept template =
    let rest =
      replace_hole-print ident fragment segments ident_kept
        (and_right (is_name name) (is_template segments) template) in
    replace_hole-hole ident fragment name (print segments)
      (is_name_kept name (and_left (is_name name) (is_template segments) template)) ident_kept
    ∙ ground (
      arith,
      ap (λ t. fragment ++ t) rest,
      print-chars fragment (fill ident fragment segments),
      rest,
    )

-- A part of a symbol.
unfoldable pub is_fragment : Text → Bool
unfolding all_keep
is_fragment [] = false
is_fragment (c ∷ fragment) = all_keep (c ∷ fragment)

-- What is asked of a substitution: identifiers, and parts of a symbol for them.
unfoldable pub is_substitution : List (Text × Text) → Bool
unfolding is_name is_fragment
is_substitution [] = true
is_substitution ((ident, fragment) ∷ subst) =
    (is_name ident && is_fragment fragment) && is_substitution subst

-- The names that are substituted.
unfoldable pub idents : List (Text × Text) → List Text
idents [] = []
idents ((ident, fragment) ∷ subst) = ident ∷ idents subst

substitution_head :
    (ident fragment : Text) (subst : List (Text × Text))
    (valid : is_substitution ((ident, fragment) ∷ subst) ≡ true)
    → (is_name ident ≡ true) × (is_fragment fragment ≡ true) × (is_substitution subst ≡ true)
unfolding is_substitution
substitution_head ident fragment subst valid =
    let head = and_left (is_name ident && is_fragment fragment) (is_substitution subst) valid in
    (
      and_left (is_name ident) (is_fragment fragment) head,
      and_right (is_name ident) (is_fragment fragment) head,
      and_right (is_name ident && is_fragment fragment) (is_substitution subst) valid,
    )

fragment_kept : (fragment : Text) (value : is_fragment fragment ≡ true) → all_keep fragment ≡ true
unfolding is_fragment
fragment_kept [] value = cc
fragment_kept (c ∷ fragment) value = value

cons_some {ℓ} : {A : Type ℓ} (a : A) (rest : List A) → (a ∷ rest) ≢ []
cons_some a rest e = cc

fill_some :
    (ident fragment : Text) (segments : List Segment) (value : is_fragment fragment ≡ true)
    (some_left : segments ≢ [])
    → fill ident fragment segments ≢ []
unfolding fill chars is_fragment
fill_some ident fragment [] value some_left = absurd (some_left refl)
fill_some ident fragment (char c ∷ segments) value some_left =
    cons_some (char c) (fill ident fragment segments)
fill_some ident [] (hole name ∷ segments) value some_left = cc
fill_some ident (c ∷ fragment) (hole name ∷ segments) value some_left =
    elim (Bool-cases (text_eq ident name)) [
      | inl same ↦
          rw (same) (cons_some (char c) (chars fragment ++ fill ident (c ∷ fragment) segments))
      | inr differs ↦ rw (differs) (cons_some (hole name) (fill ident (c ∷ fragment) segments))
    ]

-- Nothing is filled away.
fill_all_some :
    (subst : List (Text × Text)) (segments : List Segment) (valid : is_substitution subst ≡ true)
    (some_left : segments ≢ [])
    → fill_all subst segments ≢ []
unfolding fill_all
fill_all_some [] segments valid some_left = some_left
fill_all_some ((ident, fragment) ∷ subst) segments valid some_left =
    let (name, value, more) = substitution_head ident fragment subst valid in
    fill_all_some subst (fill ident fragment segments) more
      (fill_some ident fragment segments value some_left)

fill_all-print :
    (subst : List (Text × Text)) (segments : List Segment) (valid : is_substitution subst ≡ true)
    (template : is_template segments ≡ true)
    → (interpolate_symbol subst (print segments) ≡ print (fill_all subst segments))
      × (is_template (fill_all subst segments) ≡ true)
unfolding interpolate_symbol fill_all is_substitution
fill_all-print [] segments valid template = (refl, template)
fill_all-print ((ident, fragment) ∷ subst) segments valid template =
    let (name, value, more) = substitution_head ident fragment subst valid in
    let filled = fill-template ident fragment segments (fragment_kept fragment value) template in
    let (printed, rest) = fill_all-print subst (fill ident fragment segments) more filled in
    (
      ap (interpolate_symbol subst)
            (replace_hole-print ident fragment segments (is_name_kept ident name) template)
          ∙ printed,
      rest,
    )

-- A hole is left only if its name is not substituted.
holes-fill_all :
    (subst : List (Text × Text)) (segments : List Segment) (name : Text)
    → member name (holes (fill_all subst segments))
      ≡ (member name (holes segments) && not (member name (idents subst)))
unfolding fill_all idents member
holes-fill_all [] segments name = ground arith
holes-fill_all ((ident, fragment) ∷ subst) segments name = ground (
  arith,
  holes-fill_all subst (fill ident fragment segments) name,
  holes-fill ident fragment name segments,
)

-- A template without holes is a plain symbol.
check_text-plain :
    (segments : List Segment) (template : is_template segments ≡ true)
    (plain : (name : Text) → member name (holes segments) ≡ false)
    → check_text false none (print segments) ≡ ok tt
unfolding check_text print is_template holes member keep is_ascii_alphanumeric
check_text-plain [] template plain = refl
check_text-plain (char c ∷ segments) template plain = ground (
  arith,
  check_text-plain segments (and_right (keep c) (is_template segments) template) plain,
  and_left (keep c) (is_template segments) template,
)
check_text-plain (hole name ∷ segments) template plain =
    ground (arith, plain name, text_eq_refl name)

none_left : (a b : Bool) (covered : a ≡ true → b ≡ true) → (a && not b) ≡ false
none_left false b covered = refl
none_left true b covered = ap not (covered refl)

validate_print :
    (segments : List Segment) (some_left : segments ≢ [])
    (accepted : check_text false none (print segments) ≡ ok tt)
    → validate_symbol_text (print segments) false ≡ ok tt
unfolding validate_symbol_text print
validate_print [] some_left accepted = absurd (some_left refl)
validate_print (char c ∷ segments) some_left accepted = accepted
validate_print (hole name ∷ segments) some_left accepted = accepted

-- A symbol name is accepted with holes, every hole is bound to a static parameter, and a substitution by
-- parts of symbols has every static parameter: then what is interpolated is accepted without holes.
pub interpolate_symbol_valid :
    (text : Text) (static_params : List Text) (subst : List (Text × Text))
    (accepted : validate_symbol_text text true ≡ ok tt)
    (bound : validate_static_symbol_interpolations text static_params ≡ [])
    (covers : (name : Text) → member name static_params ≡ true → member name (idents subst) ≡ true)
    (valid : is_substitution subst ≡ true)
    → validate_symbol_text (interpolate_symbol subst text) false ≡ ok tt
unfolding print
interpolate_symbol_valid text static_params subst accepted bound covers valid =
    let (ne, (segments, same, template)) = (validate_symbol_text_iff text).0 accepted in
    let (printed, filled) = fill_all-print subst segments valid template in
    let read = ap (interpolations none) (sym same) ∙ interpolations-print segments template in
    ap (λ t. validate_symbol_text (interpolate_symbol subst t) false) (sym same)
    ∙ ap (λ t. validate_symbol_text t false) printed
    ∙ validate_print (fill_all subst segments)
        (fill_all_some subst segments valid (λ e. ne (sym same ∙ ap print e)))
        (check_text-plain (fill_all subst segments) filled (λ name.
          holes-fill_all subst segments name
          ∙ none_left (member name (holes segments)) (member name (idents subst)) (λ there.
            covers name (
              validate_static_symbol_interpolations-member text static_params name bound
                (ap (member name) read ∙ there)))))
