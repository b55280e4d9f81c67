-- ===== src/Derive/CfgAttr.antt =====
-- `expand` of derive/src/cfg_attr.rs: the leading inner attributes of a macro's input, of which `cfg`
-- and `cfg_attr` are taken apart into variants of the invocation, each under its conditions.
pub mod Laws
pub mod Meaning
pub mod Selects
pub mod Fuel
use Prim.Native.String.{String}
use text.Mathlib.Text.{◌==◌ as str_eq}
use co.Prelude.{
  ℕ, zero, suc, Bool, true, false, not, ◌&&◌, ◌||◌, Option, none, some, List, [], ◌∷◌, ◌++◌, ◌==◌,
  if◌then◌else◌, Result, ok, err, and_then, ◌>>=◌,
}
use co.Derive.CfgTokens.{
  Tokens, Keyword, cfg, cfg_attr, keyword, arguments, inner_attribute, split_commas, pop_empty,
  predicate_and_payloads, quote_attr,
}
use co.Derive.Tokens.{
  Delimiter, parenthesis, brace, bracket, TokenTree, group, ident, punct, TokenStream, collect,
  stream, depth,
}

-- `struct Variant`: the conditions with the branch taken, the tokens, and whether it is emitted.
pub record Variant : Type 0 where
  pub cfgs : List (Tokens × Bool)
  pub tokens : Tokens
  pub active : Bool

-- The two messages of `syn::Error`, and the end of the fuel.
pub data CfgError : Type 0 where
  conditional_arguments cfg_attr_arguments out_of_fuel : CfgError

-- `Variant::plain`.
unfoldable pub plain : Tokens → Variant
plain tokens = record { cfgs = []; tokens = tokens; active = true }

-- `previous != enabled`.
unfoldable pub differ : Bool → Bool → Bool
differ true enabled = not enabled
differ false enabled = enabled

-- `out.push(…)`, unless the conditions contradict each other.
unfoldable pub push_merged :
    Option (List (Tokens × Bool)) → Variant → Variant → List Variant → List Variant
push_merged none left right out = out
push_merged (some cfgs) left right out =
    record {
      cfgs = cfgs;
      tokens = left.tokens ++ right.tokens;
      active = left.active && right.active;
    }
    ∷ out

-- A variant of conditions only.
unfoldable pub condition : Tokens → Bool → Bool → Variant
condition predicate enabled active = record {
  cfgs = (predicate, enabled) ∷ [];
  tokens = [];
  active = active;
}

-- `variant.tokens.extend(…)` for every variant.
unfoldable pub extend_all : Tokens → List Variant → List Variant
extend_all body [] = []
extend_all body (variant ∷ variants) =
    record variant { tokens = variant.tokens ++ body } ∷ extend_all body variants

module _ (to_string : Tokens → String) where
  -- `cfgs.iter().find(…)`: the branch recorded for the predicate.
  unfoldable pub find_cfg : Tokens → List (Tokens × Bool) → Option Bool
  find_cfg predicate [] = none
  find_cfg predicate ((p, enabled) ∷ cfgs) =
      let rest = find_cfg predicate cfgs in
      if str_eq (to_string p) (to_string predicate) then some enabled else rest

  -- One condition of the right variant: `none` is `compatible = false`.
  unfoldable pub add_cfg :
      Tokens → Bool → List (Tokens × Bool) → Option Bool → Option (List (Tokens × Bool))
  unfolding differ
  add_cfg predicate enabled cfgs none = some (cfgs ++ ((predicate, enabled) ∷ []))
  add_cfg predicate enabled cfgs (some previous) =
      if differ previous enabled then none else some cfgs

  -- The loop over the conditions of the right variant.
  unfoldable pub merge_cfgs :
      List (Tokens × Bool) → List (Tokens × Bool) → Option (List (Tokens × Bool))
  unfolding find_cfg add_cfg
  merge_cfgs cfgs [] = some cfgs
  merge_cfgs cfgs ((predicate, enabled) ∷ rest) =
      add_cfg predicate enabled cfgs (find_cfg predicate cfgs) >>= λ c. merge_cfgs c rest

  -- The inner loop of `append_variants`.
  unfoldable pub append_right : Variant → List Variant → List Variant
  unfolding merge_cfgs push_merged
  append_right left [] = []
  append_right left (right ∷ rhs) =
      push_merged (merge_cfgs left.cfgs right.cfgs) left right (append_right left rhs)

  -- `append_variants`.
  unfoldable pub append_variants : List Variant → List Variant → List Variant
  unfolding append_right
  append_variants [] rhs = []
  append_variants (left ∷ lhs) rhs = append_right left rhs ++ append_variants lhs rhs

  -- The loop over the payloads; `next` is `expand_attribute`.
  unfoldable pub expand_payloads :
      (Tokens → Result (List Variant) CfgError)
      → List Variant
      → List Tokens
      → Result (List Variant) CfgError
  unfolding append_variants
  expand_payloads next present [] = ok present
  expand_payloads next present (payload ∷ parts) =
      and_then (next payload) λ found. expand_payloads next (append_variants present found) parts

  -- The end of `expand_attribute`, for `cfg_attr`.
  unfoldable pub expand_cfg_attr :
      (Tokens → Result (List Variant) CfgError)
      → Option (Tokens × List Tokens)
      → Result (List Variant) CfgError
  unfolding expand_payloads append_variants plain condition
  expand_cfg_attr next none = err cfg_attr_arguments
  expand_cfg_attr next (some (predicate, payloads)) =
      and_then (expand_payloads next (plain [] ∷ []) payloads) λ present. ok (
        append_variants (condition predicate true true ∷ []) present
        ++ (condition predicate false true ∷ []))

  -- `expand_attribute` behind the test of the arguments.
  unfoldable pub expand_conditional :
      (Tokens → Result (List Variant) CfgError)
      → Keyword
      → Option Tokens
      → Result (List Variant) CfgError
  unfolding expand_cfg_attr split_commas pop_empty predicate_and_payloads condition
  expand_conditional next k none = err conditional_arguments
  expand_conditional next cfg (some args) =
      ok (condition args true true ∷ condition args false false ∷ [])
  expand_conditional next cfg_attr (some args) =
      expand_cfg_attr next (predicate_and_payloads (pop_empty (split_commas args)))

  -- `expand_attribute` behind the test of the name.
  unfoldable pub expand_keyword :
      (Tokens → Result (List Variant) CfgError)
      → Tokens
      → Option Keyword
      → Result (List Variant) CfgError
  unfolding expand_conditional plain quote_attr arguments
  expand_keyword next tokens none = ok (plain (quote_attr tokens) ∷ [])
  expand_keyword next tokens (some k) = expand_conditional next k (arguments tokens)

  unfoldable pub expand_loop : ℕ → Tokens → Result (List Variant) CfgError
  unfolding expand_keyword keyword
  expand_loop zero tokens = err out_of_fuel
  expand_loop (suc fuel) tokens = expand_keyword (expand_loop fuel) tokens (keyword tokens)

  -- `expand_attribute`: each nested `cfg_attr` is one group deeper.
  unfoldable pub expand_attribute : Tokens → Result (List Variant) CfgError
  unfolding expand_loop depth
  expand_attribute tokens = expand_loop (suc (depth tokens)) tokens

  -- One round of the loop of `expand`: `next` is the loop behind the attribute.
  unfoldable pub expand_round :
      (List Variant → Result (List Variant) CfgError)
      → Tokens
      → List Variant
      → Option Tokens
      → Result (List Variant) CfgError
  unfolding expand_attribute append_variants extend_all
  expand_round next tokens variants none = ok (extend_all tokens variants)
  expand_round next tokens variants (some attribute) =
      and_then (expand_attribute attribute) λ found. next (append_variants variants found)

  -- The loop of `expand`, three tokens for each attribute.
  unfoldable pub expand_from : Tokens → List Variant → Result (List Variant) CfgError
  unfolding expand_round extend_all inner_attribute
  expand_from (first ∷ second ∷ third ∷ rest) variants =
      expand_round (expand_from rest) (first ∷ second ∷ third ∷ rest) variants
        (inner_attribute first second third)
  expand_from tokens variants = ok (extend_all tokens variants)

  -- `expand`.
  unfoldable pub expand : Tokens → Result (List Variant) CfgError
  unfolding expand_from plain
  expand input = expand_from input (plain [] ∷ [])

-- The attribute for one condition: `#[cfg(predicate)]` or `#[cfg(not(predicate))]`.
unfoldable pub cfg_tokens : List (Tokens × Bool) → Tokens
cfg_tokens [] = []
cfg_tokens ((predicate, true) ∷ cfgs) =
    punct b'#'
    ∷ group bracket (stream (ident "cfg" ∷ group parenthesis (stream predicate) ∷ []))
    ∷ cfg_tokens cfgs
cfg_tokens ((predicate, false) ∷ cfgs) =
    punct b'#'
    ∷ group bracket (
        stream (
          ident "cfg"
          ∷ group parenthesis (stream (ident "not" ∷ group parenthesis (stream predicate) ∷ []))
          ∷ []))
    ∷ cfg_tokens cfgs

-- `filter(|variant| variant.active)`.
unfoldable pub active_variants : List Variant → List Variant
active_variants [] = []
active_variants (variant ∷ variants) =
    let rest = active_variants variants in if variant.active then variant ∷ rest else rest

-- The invocations of the variants, one behind the other.
unfoldable pub invocations : Tokens → Tokens → List Variant → Tokens
unfolding cfg_tokens
invocations macro_path prefix [] = []
invocations macro_path prefix (variant ∷ variants) =
    (cfg_tokens variant.cfgs
      ++ (macro_path ++ (punct b'!' ∷ group brace (stream (prefix ++ variant.tokens)) ∷ [])))
    ++ invocations macro_path prefix variants

-- `emit_macro_invocations`.
unfoldable pub emit_macro_invocations : Tokens → Tokens → List Variant → Tokens
unfolding invocations active_variants
emit_macro_invocations macro_path prefix variants =
    invocations macro_path prefix (active_variants variants)
