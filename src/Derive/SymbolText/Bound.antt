-- ===== src/Derive/SymbolText/Bound.antt =====
-- The names that a template's text interpolates, and the parameters that they are bound to.
use co.Prelude.{
  Bool, true, false, not, ◌||◌, none, some, List, [], ◌∷◌, ◌++◌, map, ◌==◌, ==_iff, filter, ◌≡◌,
  ◌∙◌, refl, sym, ap, arith, inl, inr, append_assoc, append_nil, cons_cong, Bool-cases,
}
use co.Derive.Symbol.{is_ascii_alphanumeric, keep}
use co.Derive.SymbolText.{
  Text, all_keep, is_name, text_eq, member, count, insert_key, keys, interpolations, not_static,
  not_once, validate_static_symbol_interpolations,
}
use co.Derive.SymbolText.Laws.{
  Segment, char, hole, print, is_template, holes, is_name_kept, and_left, and_right,
}

interpolations-close :
    (name read rest : Text) (kept : all_keep name ≡ true)
    → interpolations (some read) (name ++ (b'}' ∷ rest)) ≡ (read ++ name) ∷ interpolations none rest
unfolding interpolations all_keep keep is_ascii_alphanumeric
interpolations-close [] read rest kept = cons_cong (sym (append_nil read)) refl
interpolations-close (c ∷ name) read rest kept =
    let later =
      interpolations-close name (read ++ (c ∷ [])) rest (and_right (keep c) (all_keep name) kept) in
    ground (arith, later, append_assoc read (c ∷ []) name, and_left (keep c) (all_keep name) kept)

-- The scan reads the holes of the template.
pub interpolations-print :
    (segments : List Segment) (template : is_template segments ≡ true)
    → interpolations none (print segments) ≡ holes segments
unfolding interpolations print is_template holes keep is_ascii_alphanumeric
interpolations-print [] template = refl
interpolations-print (char c ∷ segments) template = ground (
  arith,
  interpolations-print segments (and_right (keep c) (is_template segments) template),
  and_left (keep c) (is_template segments) template,
)
interpolations-print (hole name ∷ segments) template =
    interpolations-close name [] (print segments)
      (is_name_kept name (and_left (is_name name) (is_template segments) template))
    ∙ cons_cong refl
        (interpolations-print segments (and_right (is_name name) (is_template segments) template))

pub text_eq_refl : (a : Text) → text_eq a a ≡ true
unfolding text_eq
text_eq_refl [] = refl
text_eq_refl (c ∷ a) = ground (arith, text_eq_refl a)

pub text_eq_lem : (a b : Text) → text_eq a b ≡ true → a ≡ b
unfolding text_eq
text_eq_lem [] [] same = refl
text_eq_lem [] (d ∷ b) same = cc
text_eq_lem (c ∷ a) [] same = cc
text_eq_lem (c ∷ a) (d ∷ b) same =
    cons_cong ((==_iff c d).0 (and_left (c == d) (text_eq a b) same))
      (text_eq_lem a b (and_right (c == d) (text_eq a b) same))

member-insert_key :
    (a b : Text) (names : List Text)
    → member a (insert_key b names) ≡ (text_eq b a || member a names)
unfolding member insert_key
member-insert_key a b [] = refl
member-insert_key a b (n ∷ names) = elim (Bool-cases (text_eq n b)) [
  | inl same ↦ ground (arith, ap (λ t. text_eq t a) (text_eq_lem n b same))
  | inr differs ↦ ground (arith, member-insert_key a b names)
]

-- The keys of a map are the names that it was counted up from.
pub member-keys : (a : Text) (names : List Text) → member a (keys names) ≡ member a names
unfolding member keys
member-keys a [] = refl
member-keys a (n ∷ names) =
    member-insert_key a n (keys names) ∙ ap (λ rest. text_eq n a || rest) (member-keys a names)

cons_not_nil {ℓ} : {A : Type ℓ} (a : A) (rest : List A) → (a ∷ rest) ≡ [] → ⊥
cons_not_nil a rest none_left = cc

-- What a filter that keeps nothing says of a member.
filter_none :
    (p : Text → Bool) (names : List Text) (a : Text) (nothing : filter p names ≡ [])
    (there : member a names ≡ true)
    → p a ≡ false
unfolding member
filter_none p [] a nothing there = cc
filter_none p (n ∷ names) a nothing there = elim (Bool-cases (text_eq n a)) [
  | inl same ↦ elim (Bool-cases (p n)) [
    | inl kept ↦ absurd (cons_not_nil n (filter p names) (ground arith))
    | inr dropped ↦ ap p (sym (text_eq_lem n a same)) ∙ dropped
  ]
  | inr differs ↦ filter_none p names a (ground arith) (ground arith)
]

map-none {ℓ} :
    {A : Type ℓ} (f : Text → A) (names : List Text) (more : List A)
    (nothing : (map f names ++ more) ≡ [])
    → names ≡ []
map-none f [] more nothing = refl
map-none f (n ∷ names) more nothing = absurd (cons_not_nil (f n) (map f names ++ more) nothing)

not-false : (b : Bool) → not b ≡ false → b ≡ true
not-false true h = refl
not-false false h = sym h

map-filter_none {ℓ} :
    {A : Type ℓ} (f : Text → A) (p : Text → Bool) (names : List Text) (more : List A) (a : Text)
    (nothing : (map f (filter p names) ++ more) ≡ []) (there : member a names ≡ true)
    → p a ≡ false
map-filter_none f p names more a nothing there =
    filter_none p names a (map-none f (filter p names) more nothing) there

-- Where nothing is reported, every name that the text interpolates is a static parameter.
pub validate_static_symbol_interpolations-member :
    (text : Text) (static_params : List Text) (name : Text)
    (bound : validate_static_symbol_interpolations text static_params ≡ [])
    (there : member name (interpolations none text) ≡ true)
    → member name static_params ≡ true
unfolding validate_static_symbol_interpolations
validate_static_symbol_interpolations-member text static_params name bound there =
    sym (member-keys name static_params)
    ∙ not-false (member name (keys static_params)) (
        map-filter_none not_static (λ n. not (member n (keys static_params)))
          (keys (interpolations none text))
          (map not_once
            (filter (λ n. not (count n (interpolations none text) == 1)) (keys static_params)))
          name bound (member-keys name (interpolations none text) ∙ there))
