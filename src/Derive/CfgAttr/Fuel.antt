-- ===== src/Derive/CfgAttr/Fuel.antt =====
-- `expand` ends: every payload of an attribute is nested less deep than the attribute.
use Prim.Native.String.{String}
use co.Prelude.{
  ℕ, zero, suc, ◌<◌, Bool, true, false, Option, none, some, List, [], ◌∷◌, ◌++◌, All, Result, ok,
  err, and_then-err, if◌then◌else◌, ◌≡◌, ◌≢◌, ◌⊎◌, refl, sym, inl, inr, arith,
}
use co.Derive.Tokens.{
  group, ident, punct, literal, parenthesis, brace, bracket, nothing, depth, depth_tree,
  depth-collect, depth-append,
}
use co.Derive.CfgTokens.{
  Tokens, Keyword, cfg, cfg_attr, keyword, arguments, split_from, split_commas, pop_empty,
  any_empty, predicate_and_payloads, is_punct, inner_attribute,
}
use co.Derive.CfgAttr.{
  Variant, CfgError, out_of_fuel, conditional_arguments, cfg_attr_arguments, plain, append_variants,
  expand_payloads, expand_cfg_attr, expand_conditional, expand_keyword, expand_loop,
  expand_attribute, expand_round, expand_from, expand,
}

abbrev AllBelow : ℕ → List Tokens → Type 0
AllBelow n = All (λ part. depth part < n)

if-AllBelow :
    (n : ℕ) (b : Bool) (xs ys : List Tokens)
    → AllBelow n xs
    → AllBelow n ys
    → AllBelow n (if b then xs else ys)
if-AllBelow n true xs ys h k = h
if-AllBelow n false xs ys h k = k

split_from-AllBelow :
    (part input : Tokens) (n : ℕ) (filled : depth part < n) (left : depth input < n)
    → AllBelow n (split_from part input)
unfolding split_from depth
split_from-AllBelow part [] n filled left = (filled, tt)
split_from-AllBelow part (token ∷ input) n filled left =
    if-AllBelow n (is_punct b',' token) _ _
      (filled, split_from-AllBelow [] input n (ground arith) (ground arith))
      (split_from-AllBelow (part ++ (token ∷ [])) input n
        (depth-append part (token ∷ []) n filled (ground arith)) (ground arith))

pop_empty-AllBelow :
    (parts : List Tokens) (n : ℕ) (below : AllBelow n parts) → AllBelow n (pop_empty parts)
unfolding pop_empty
pop_empty-AllBelow [] n below = tt
pop_empty-AllBelow (part ∷ []) n below = ground arith
pop_empty-AllBelow (part ∷ next ∷ parts) n below =
    (below.0, pop_empty-AllBelow (next ∷ parts) n below.1)

payloads-AllBelow :
    (parts : List Tokens) (n : ℕ) (below : AllBelow n parts) (predicate : Tokens)
    (payloads : List Tokens) (split : predicate_and_payloads parts ≡ some (predicate, payloads))
    → AllBelow n payloads
unfolding predicate_and_payloads
payloads-AllBelow [] n below predicate payloads split = cc
payloads-AllBelow (p ∷ []) n below predicate payloads split = cc
payloads-AllBelow (p ∷ q ∷ parts) n below predicate payloads split =
    rw (sym (kept (any_empty (p ∷ q ∷ parts)) split)) below.1
  where
    kept :
        (b : Bool)
        → if◌then◌else◌ {A = Option (Tokens × List Tokens)} b none (some (p, q ∷ parts))
          ≡ some (predicate, payloads)
        → (q ∷ parts) ≡ payloads
    kept b e = ground arith

depth-arguments :
    (tokens args : Tokens) (found : arguments tokens ≡ some args) → depth args < depth tokens
unfolding arguments depth depth_tree
depth-arguments [] args found = cc
depth-arguments (name ∷ []) args found = cc
depth-arguments (name ∷ group parenthesis tokens ∷ []) args found =
    ground (arith, depth-collect tokens)
depth-arguments (name ∷ group parenthesis tokens ∷ more ∷ rest) args found = cc
depth-arguments (name ∷ group brace tokens ∷ rest) args found = cc
depth-arguments (name ∷ group bracket tokens ∷ rest) args found = cc
depth-arguments (name ∷ group nothing tokens ∷ rest) args found = cc
depth-arguments (name ∷ ident text ∷ rest) args found = cc
depth-arguments (name ∷ punct ch ∷ rest) args found = cc
depth-arguments (name ∷ literal text ∷ rest) args found = cc

module _ (to_string : Tokens → String) where
  -- `next` has fuel for attributes nested `n` deep.
  abbrev Fueled : ℕ → (Tokens → Result (List Variant) CfgError) → Type 0
  Fueled n next = (tokens : Tokens) → depth tokens < n → next tokens ≢ err out_of_fuel

  expand_payloads_fuel :
      (next : Tokens → Result (List Variant) CfgError) (n : ℕ) (fueled : Fueled n next)
      (parts : List Tokens) (below : AllBelow n parts) (present : List Variant)
      → expand_payloads to_string next present parts ≢ err out_of_fuel
  unfolding expand_payloads
  expand_payloads_fuel next n fueled [] below present = λ e. cc
  expand_payloads_fuel next n fueled (payload ∷ parts) below present = λ e.
      elim (and_then-err (next payload) _ out_of_fuel e) [
        | inl here ↦ fueled payload below.0 here
        | inr later ↦
            expand_payloads_fuel next n fueled parts below.1
              (append_variants to_string present later.0) later.1
      ]

  expand_cfg_attr_fuel :
      (next : Tokens → Result (List Variant) CfgError) (n : ℕ) (fueled : Fueled n next)
      (parts : List Tokens) (below : AllBelow n parts) (split : Option (Tokens × List Tokens))
      (found : predicate_and_payloads parts ≡ split)
      → expand_cfg_attr to_string next split ≢ err out_of_fuel
  unfolding expand_cfg_attr
  expand_cfg_attr_fuel next n fueled parts below none found = λ e. cc
  expand_cfg_attr_fuel next n fueled parts below (some (predicate, payloads)) found = λ e.
      elim (and_then-err (expand_payloads to_string next (plain [] ∷ []) payloads) _ out_of_fuel
        e) [
          | inl here ↦
              expand_payloads_fuel next n fueled payloads
                (payloads-AllBelow parts n below predicate payloads found) (plain [] ∷ []) here
          | inr later ↦ ground (arith, later.1)
        ]

  expand_conditional_fuel :
      (next : Tokens → Result (List Variant) CfgError) (n : ℕ) (fueled : Fueled n next)
      (k : Keyword) (tokens : Tokens) (d : depth tokens < suc n) (args : Option Tokens)
      (found : arguments tokens ≡ args)
      → expand_conditional to_string next k args ≢ err out_of_fuel
  unfolding expand_conditional depth
  expand_conditional_fuel next n fueled k tokens d none found = λ e. cc
  expand_conditional_fuel next n fueled cfg tokens d (some args) found = λ e. cc
  expand_conditional_fuel next n fueled cfg_attr tokens d (some args) found =
      let parts = pop_empty (split_commas args) in
      expand_cfg_attr_fuel next n fueled parts
        (pop_empty-AllBelow (split_commas args) n (
          split_from-AllBelow [] args n (ground (arith, depth-arguments tokens args found))
            (omega (arith, depth-arguments tokens args found))))
        (predicate_and_payloads parts) refl

  expand_keyword_fuel :
      (next : Tokens → Result (List Variant) CfgError) (n : ℕ) (fueled : Fueled n next)
      (tokens : Tokens) (d : depth tokens < suc n) (k : Option Keyword)
      → expand_keyword to_string next tokens k ≢ err out_of_fuel
  unfolding expand_keyword
  expand_keyword_fuel next n fueled tokens d none = λ e. cc
  expand_keyword_fuel next n fueled tokens d (some k) =
      expand_conditional_fuel next n fueled k tokens d (arguments tokens) refl

  expand_loop_fuel : (n : ℕ) → Fueled n (expand_loop to_string n)
  unfolding expand_loop
  expand_loop_fuel zero = λ tokens d. omega arith
  expand_loop_fuel (suc n) = λ tokens d.
      expand_keyword_fuel (expand_loop to_string n) n (expand_loop_fuel n) tokens d (keyword tokens)

  expand_from_fuel :
      (input : Tokens) (variants : List Variant)
      → expand_from to_string input variants ≢ err out_of_fuel
  unfolding expand_from expand_round expand_attribute
  expand_from_fuel [] variants = λ e. cc
  expand_from_fuel (a ∷ []) variants = λ e. cc
  expand_from_fuel (a ∷ b ∷ []) variants = λ e. cc
  expand_from_fuel (a ∷ b ∷ c ∷ rest) variants =
      round_fuel (inner_attribute a b c) (expand_from_fuel rest)
    where
      round_fuel :
          (found : Option Tokens)
          → ((before : List Variant) → expand_from to_string rest before ≢ err out_of_fuel)
          → expand_round to_string (expand_from to_string rest) (a ∷ b ∷ c ∷ rest) variants found
            ≢ err out_of_fuel
      round_fuel none later = λ e. cc
      round_fuel (some tokens) later = λ e.
          elim (and_then-err (expand_attribute to_string tokens) _ out_of_fuel e) [
            | inl here ↦ expand_loop_fuel (suc (depth tokens)) tokens (omega arith) here
            | inr after ↦ later (append_variants to_string variants after.0) after.1
          ]

  -- `expand` ends with variants or with one of the two messages of the code.
  pub expand_ends :
      (input : Tokens)
      → ((vs : List Variant) × (expand to_string input ≡ ok vs))
        ⊎ ((expand to_string input ≡ err conditional_arguments)
            ⊎ (expand to_string input ≡ err cfg_attr_arguments))
  unfolding expand
  expand_ends input =
      ended (expand_from to_string input (plain [] ∷ [])) (expand_from_fuel input (plain [] ∷ []))
    where
      ended :
          (r : Result (List Variant) CfgError)
          → r ≢ err out_of_fuel
          → ((vs : List Variant) × (r ≡ ok vs))
            ⊎ ((r ≡ err conditional_arguments) ⊎ (r ≡ err cfg_attr_arguments))
      ended (ok vs) ne = inl (vs, refl)
      ended (err conditional_arguments) ne = inr (inl refl)
      ended (err cfg_attr_arguments) ne = inr (inr refl)
      ended (err out_of_fuel) ne = absurd (ne refl)
