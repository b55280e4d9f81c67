-- ===== src/Derive/SymbolText/Laws.antt =====
-- The names that are accepted are the printed templates.
use co.Prelude.{
  ℕ, Bool, true, false, ◌&&◌, Option, none, some, List, [], ◌∷◌, ◌++◌, ◌==◌, ==_iff, ok, ◌≡◌, ◌≢◌,
  ◌∙◌, ◌↔◌, refl, sym, ap, arith, inl, inr, append_assoc, append_nil, cons_cong, Bool-cases,
}
use co.Derive.Symbol.{is_ascii_alphanumeric, keep}
use co.Derive.SymbolText.{
  Text, is_ascii_alphabetic, all_keep, is_name, check_text, validate_symbol_text,
}

-- A character, or the name of a parameter between braces.
pub data Segment : Type 0 where
  char : ℕ → Segment
  hole : Text → Segment

unfoldable pub print : List Segment → Text
print [] = []
print (char c ∷ segments) = c ∷ print segments
print (hole name ∷ segments) = b'{' ∷ (name ++ (b'}' ∷ print segments))

-- The characters stand in symbols, and the names are identifiers.
unfoldable pub is_template : List Segment → Bool
unfolding keep is_name
is_template [] = true
is_template (char c ∷ segments) = keep c && is_template segments
is_template (hole name ∷ segments) = is_name name && is_template segments

unfoldable pub holes : List Segment → List Text
holes [] = []
holes (char c ∷ segments) = holes segments
holes (hole name ∷ segments) = name ∷ holes segments

-- What is left to print, outside and inside of braces.
abbrev Parsed : Option Text → Text → Type 0
Parsed none text =
    (segments : List Segment) × (print segments ≡ text) × (is_template segments ≡ true)
Parsed (some name) text =
    (more : Text) × (segments : List Segment) × (text ≡ more ++ (b'}' ∷ print segments))
    × (is_name (name ++ more) ≡ true)
    × (is_template segments ≡ true)

pub and_left : (a b : Bool) (both : (a && b) ≡ true) → a ≡ true
and_left a b both = ground arith

pub and_right : (a b : Bool) (both : (a && b) ≡ true) → b ≡ true
and_right a b both = ground arith

pub and_both : (a b : Bool) (left : a ≡ true) (right : b ≡ true) → (a && b) ≡ true
and_both a b left right = rw (left) right

check_text-inside :
    (c : ℕ) (cs : Text) (accepted : check_text true none (c ∷ cs) ≡ ok tt)
    (open_brace : (c == b'{') ≡ true)
    → check_text true (some []) cs ≡ ok tt
unfolding check_text
check_text-inside c cs accepted open_brace = ground arith

check_text-outside :
    (c : ℕ) (cs : Text) (accepted : check_text true none (c ∷ cs) ≡ ok tt)
    (other : (c == b'{') ≡ false)
    → (keep c ≡ true) × (check_text true none cs ≡ ok tt)
unfolding check_text
check_text-outside c cs accepted other = (ground arith, ground arith)

check_text-Parsed :
    (mode : Option Text) (text : Text) (accepted : check_text true mode text ≡ ok tt)
    → Parsed mode text
unfolding check_text print is_template
check_text-Parsed none [] accepted = ([], refl, refl)
check_text-Parsed (some name) [] accepted = cc
check_text-Parsed none (c ∷ cs) accepted = elim (Bool-cases (c == b'{')) [
  | inl open_brace ↦
      let (more, segments, text, valid, rest) =
        check_text-Parsed (some []) cs (check_text-inside c cs accepted open_brace) in
      (
        hole more ∷ segments,
        cons_cong (sym ((==_iff c b'{').0 open_brace)) (sym text),
        ground (arith, valid, rest),
      )
  | inr other ↦
      let (kept, more) = check_text-outside c cs accepted other in
      let (segments, text, rest) = check_text-Parsed none cs more in
      (char c ∷ segments, cons_cong refl text, and_both (keep c) (is_template segments) kept rest)
]
check_text-Parsed (some name) (c ∷ cs) accepted = elim (Bool-cases (c == b'}')) [
  | inl closing ↦
      let (segments, text, rest) = check_text-Parsed none cs (ground arith) in
      (
        [],
        segments,
        cons_cong ((==_iff c b'}').0 closing) (sym text),
        rw (append_nil name) (ground arith),
        rest,
      )
  | inr other ↦
      let (more, segments, text, valid, rest) =
        check_text-Parsed (some (name ++ (c ∷ []))) cs (ground arith) in
      (
        c ∷ more,
        segments,
        cons_cong refl text,
        ap is_name (sym (append_assoc name (c ∷ []) more)) ∙ valid,
        rest,
      )
]

-- A printed name is read to the brace that closes it.
name_closes :
    (interpolation : Bool) (name read : Text) (segments : List Segment)
    (valid : is_name (read ++ name) ≡ true) (kept : all_keep name ≡ true)
    → check_text interpolation (some read) (name ++ (b'}' ∷ print segments))
      ≡ check_text interpolation none (print segments)
unfolding check_text all_keep keep is_ascii_alphanumeric
name_closes interpolation [] read segments valid kept =
    ground (arith, ap is_name (append_nil read), valid)
name_closes interpolation (c ∷ name) read segments valid kept =
    let rest =
      name_closes interpolation name (read ++ (c ∷ [])) segments
        (ap is_name (append_assoc read (c ∷ []) name) ∙ valid) (ground arith) in
    ground (arith, rest)

pub is_name_kept : (name : Text) (valid : is_name name ≡ true) → all_keep name ≡ true
unfolding is_name all_keep keep is_ascii_alphabetic is_ascii_alphanumeric
is_name_kept [] valid = cc
is_name_kept (c ∷ name) valid = ground arith

-- A printed template is accepted.
pub check_text-print :
    (segments : List Segment) (template : is_template segments ≡ true)
    → check_text true none (print segments) ≡ ok tt
unfolding check_text print is_template keep is_ascii_alphanumeric
check_text-print [] template = refl
check_text-print (char c ∷ segments) template = ground (arith, check_text-print segments, template)
check_text-print (hole name ∷ segments) template =
    name_closes true name [] segments (ground arith) (is_name_kept name (ground arith))
    ∙ check_text-print segments (ground arith)

-- A name is accepted exactly if it is not empty and is printed from a template: symbol characters, and
-- identifiers between braces.
pub validate_symbol_text_iff :
    (text : Text)
    → (validate_symbol_text text true ≡ ok tt) ↔ (
        (text ≢ [])
        × ((segments : List Segment) × (print segments ≡ text) × (is_template segments ≡ true)))
unfolding validate_symbol_text
validate_symbol_text_iff [] = ((λ e. cc), λ t. absurd (t.0 refl))
validate_symbol_text_iff (c ∷ cs) = (
  (λ accepted. ((λ e. cc), check_text-Parsed none (c ∷ cs) accepted)),
  λ (ne, (segments, text, template)).
      ap (check_text true none) (sym text) ∙ check_text-print segments template,
)
