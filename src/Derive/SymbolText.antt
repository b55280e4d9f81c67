-- ===== src/Derive/SymbolText.antt =====
-- Names of linker symbols with holes for parameters: `validate_symbol_text` of derive/src/parse.rs,
-- `validate_static_symbol_interpolations` of derive/src/validate.rs and `interpolate_symbol_attrs` of
-- derive/src/utils.rs. A character is its code.
pub mod Laws
pub mod Bound
pub mod Filled
use co.Prelude.{
  ℕ, zero, suc, ◌+◌, Bool, true, false, not, ◌&&◌, ◌||◌, Option, none, some, List, [], ◌∷◌, ◌++◌,
  map, length, leb, ltb, ◌==◌, if◌then◌else◌, filter, Result, ok, err,
}
use co.Derive.Symbol.{underscore, is_ascii_alphanumeric, keep}

-- A name, as the codes of its characters.
abbrev pub Text : Type 0
Text = List ℕ

-- The messages of `validate_symbol_text`.
pub data TextError : Type 0 where
  empty_text bad_interpolation reserved_brace bad_character : TextError

-- `char::is_ascii_alphabetic`.
unfoldable pub is_ascii_alphabetic : ℕ → Bool
is_ascii_alphabetic ch = (leb 65 ch && leb ch 90) || (leb 97 ch && leb ch 122)

-- The characters behind the first one of an interpolated name.
unfoldable pub all_keep : Text → Bool
unfolding keep
all_keep [] = true
all_keep (c ∷ cs) = keep c && all_keep cs

-- The tests of the name between the braces.
unfoldable pub is_name : Text → Bool
unfolding is_ascii_alphabetic all_keep
is_name [] = false
is_name (c ∷ cs) = ((c == underscore) || is_ascii_alphabetic c) && all_keep cs

-- The loop of `validate_symbol_text`, with the name read so far while it is between braces.
unfoldable pub check_text : Bool → Option Text → Text → Result (Unit {0}) TextError
unfolding is_name keep
check_text interpolation none [] = ok tt
check_text interpolation (some name) [] = err bad_interpolation
check_text interpolation none (c ∷ cs) =
    let inside = check_text interpolation (some []) cs in
    let outside = check_text interpolation none cs in
    if interpolation && c == b'{'
    then inside
    else if (c == b'{') || (c == b'}')
    then err reserved_brace
    else if not (keep c)
    then err bad_character
    else outside
check_text interpolation (some name) (c ∷ cs) =
    let closed = check_text interpolation none cs in
    let more = check_text interpolation (some (name ++ (c ∷ []))) cs in
    if c == b'}' then (if not (is_name name) then err bad_interpolation else closed) else more

-- `validate_symbol_text`.
unfoldable pub validate_symbol_text : Text → Bool → Result (Unit {0}) TextError
unfolding check_text
validate_symbol_text [] interpolation = err empty_text
validate_symbol_text (c ∷ cs) interpolation = check_text interpolation none (c ∷ cs)

-- `==` of strings.
unfoldable pub text_eq : Text → Text → Bool
text_eq [] [] = true
text_eq (a ∷ xs) (b ∷ ys) = a == b && text_eq xs ys
text_eq _ _ = false

-- `<` of strings.
unfoldable pub text_ltb : Text → Text → Bool
text_ltb [] [] = false
text_ltb [] (b ∷ ys) = true
text_ltb (a ∷ xs) [] = false
text_ltb (a ∷ xs) (b ∷ ys) = ltb a b || (a == b && text_ltb xs ys)

-- `contains` of a set of strings.
unfoldable pub member : Text → List Text → Bool
unfolding text_eq
member name [] = false
member name (n ∷ names) = text_eq n name || member name names

-- How often a name was interpolated.
unfoldable pub count : Text → List Text → ℕ
unfolding text_eq
count name [] = 0
count name (n ∷ names) = if text_eq n name then suc (count name names) else count name names

-- The key of a map or a set of strings.
unfoldable pub insert_key : Text → List Text → List Text
unfolding text_eq text_ltb
insert_key name [] = name ∷ []
insert_key name (n ∷ names) =
    let rest = insert_key name names in
    if text_eq n name then n ∷ names else if text_ltb name n then name ∷ n ∷ names else n ∷ rest

unfoldable pub keys : List Text → List Text
unfolding insert_key
keys [] = []
keys (name ∷ names) = insert_key name (keys names)

-- The loop over the characters of the symbol's name: every interpolated name.
unfoldable pub interpolations : Option Text → Text → List Text
interpolations none [] = []
interpolations (some name) [] = name ∷ []
interpolations none (c ∷ cs) =
    let inside = interpolations (some []) cs in
    let outside = interpolations none cs in if c == b'{' then inside else outside
interpolations (some name) (c ∷ cs) =
    let closed = interpolations none cs in
    let more = interpolations (some (name ++ (c ∷ []))) cs in
    if c == b'}' then name ∷ closed else more

-- The messages of `validate_static_symbol_interpolations`.
pub data BindingError : Type 0 where
  not_static : Text → BindingError
  not_once : Text → BindingError

-- The errors that `validate_static_symbol_interpolations` combines; it succeeds where there is none.
unfoldable pub validate_static_symbol_interpolations : Text → List Text → List BindingError
unfolding interpolations keys member count
validate_static_symbol_interpolations text static_params =
    let names = interpolations none text in
    map not_static (filter (λ name. not (member name (keys static_params))) (keys names))
    ++ map not_once (filter (λ name. not (count name names == 1)) (keys static_params))

-- Whether the text starts with the pattern.
unfoldable pub starts_with : Text → Text → Bool
starts_with [] text = true
starts_with (a ∷ xs) [] = false
starts_with (a ∷ xs) (b ∷ ys) = a == b && starts_with xs ys

-- `str::replace` for a pattern of `suc n` characters; the first `skip` characters belong to a match.
unfoldable pub replace_from : ℕ → Text → Text → ℕ → Text → Text
unfolding starts_with
replace_from n pattern fragment skip [] = []
replace_from n pattern fragment (suc skip) (c ∷ cs) = replace_from n pattern fragment skip cs
replace_from n pattern fragment zero (c ∷ cs) =
    let behind = replace_from n pattern fragment n cs in
    let next = replace_from n pattern fragment zero cs in
    if starts_with pattern (c ∷ cs) then fragment ++ behind else c ∷ next

-- `value.replace("{ident}", fragment)`.
unfoldable pub replace_hole : Text → Text → Text → Text
unfolding replace_from
replace_hole ident fragment value =
    replace_from (suc (length ident)) (b'{' ∷ (ident ++ (b'}' ∷ []))) fragment 0 value

-- The loop of `interpolate_symbol_attrs` over the substitution.
unfoldable pub interpolate_symbol : List (Text × Text) → Text → Text
unfolding replace_hole
interpolate_symbol [] value = value
interpolate_symbol ((ident, fragment) ∷ subst) value =
    interpolate_symbol subst (replace_hole ident fragment value)
