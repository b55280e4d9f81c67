-- ===== src/Derive/CfgTokens.antt =====
-- The recognisers of derive/src/cfg_attr.rs: what an inner attribute is, and the parts of a conditional
-- one.
use Prim.Native.String.{String}
use text.Mathlib.Text.{◌==◌ as str_eq}
use co.Prelude.{
  ℕ, Bool, true, false, ◌&&◌, ◌||◌, Option, none, some, List, [], ◌∷◌, ◌++◌, ◌==◌, if◌then◌else◌,
}
use co.Derive.Tokens.{parenthesis, bracket, TokenTree, group, ident, punct, collect, stream}

abbrev pub Tokens : Type 0
Tokens = List TokenTree

-- `punct`.
unfoldable pub is_punct : ℕ → TokenTree → Bool
is_punct ch (punct c) = c == ch
is_punct ch _ = false

-- `quote_attr`.
unfoldable pub quote_attr : Tokens → Tokens
quote_attr tokens = punct b'#' ∷ punct b'!' ∷ group bracket (stream tokens) ∷ []

-- The loop of `split_commas`, with the part that is being filled.
unfoldable pub split_from : Tokens → Tokens → List Tokens
unfolding is_punct
split_from part [] = part ∷ []
split_from part (token ∷ input) =
    let next = split_from [] input in
    let more = split_from (part ++ (token ∷ [])) input in
    if is_punct b',' token then part ∷ next else more

-- `split_commas`.
unfoldable pub split_commas : Tokens → List Tokens
unfolding split_from
split_commas input = split_from [] input

-- `TokenStream::is_empty`.
unfoldable pub is_empty : Tokens → Bool
is_empty [] = true
is_empty (token ∷ tokens) = false

-- `parts.pop()` where the last part is empty.
unfoldable pub pop_empty : List Tokens → List Tokens
unfolding is_empty
pop_empty [] = []
pop_empty (part ∷ []) = if is_empty part then [] else part ∷ []
pop_empty (part ∷ next ∷ parts) = part ∷ pop_empty (next ∷ parts)

-- `iter().any(TokenStream::is_empty)`.
unfoldable pub any_empty : List Tokens → Bool
unfolding is_empty
any_empty [] = false
any_empty (part ∷ parts) = is_empty part || any_empty parts

-- The guard on the parts, and `parts.remove(0)`.
unfoldable pub predicate_and_payloads : List Tokens → Option (Tokens × List Tokens)
unfolding any_empty
predicate_and_payloads [] = none
predicate_and_payloads (predicate ∷ []) = none
predicate_and_payloads (predicate ∷ payload ∷ parts) =
    if any_empty (predicate ∷ payload ∷ parts) then none else some (predicate, payload ∷ parts)

-- The two names that make an attribute conditional.
pub data Keyword : Type 0 where
  cfg cfg_attr : Keyword

unfoldable pub keyword_of : String → Option Keyword
keyword_of name =
    if str_eq name "cfg" then some cfg else if str_eq name "cfg_attr" then some cfg_attr else none

-- The first token of an attribute, where it is one of the two.
unfoldable pub keyword : Tokens → Option Keyword
unfolding keyword_of
keyword (ident name ∷ tokens) = keyword_of name
keyword _ = none

-- The parenthesised arguments, where they are all that follows the name.
unfoldable pub arguments : Tokens → Option Tokens
unfolding collect
arguments (name ∷ group parenthesis args ∷ []) = some (collect args)
arguments _ = none

-- `inner_attribute`, on the first three tokens.
unfoldable pub inner_attribute : TokenTree → TokenTree → TokenTree → Option Tokens
unfolding is_punct collect
inner_attribute first second (group bracket tokens) =
    if is_punct b'#' first && is_punct b'!' second then some (collect tokens) else none
inner_attribute first second _ = none
