-- ===== src/Derive/CfgAttr/Meaning.antt =====
-- What inner attributes mean under one configuration, without variants.
use Prim.Native.String.{String}
use co.Prelude.{Bool, true, false, Option, none, some, List, [], ◌∷◌, ◌≡◌}
use co.Derive.Tokens.{TokenTree}
use co.Derive.CfgTokens.{
  Tokens, cfg, cfg_attr, keyword, arguments, split_commas, pop_empty, predicate_and_payloads,
  quote_attr, inner_attribute,
}
use co.Derive.CfgAttr.Laws.{Meaning, both}

-- The attribute at the front of the input.
unfoldable pub leading : Tokens → Option Tokens
leading (first ∷ second ∷ third ∷ rest) = inner_attribute first second third
leading _ = none

module _ (to_string : Tokens → String) (env : String → Bool) where
  mutual
    -- `Means attribute m`: the attribute stands for the tokens of `m`, and gates the invocation by its
    -- flag.
    pub data Means : Tokens → Meaning → Type 0 where
      unconditional :
          {attribute : Tokens}
          → keyword attribute ≡ none
          → Means attribute (quote_attr attribute, true)
      gate :
          {attribute predicate : Tokens}
          → keyword attribute ≡ some cfg
          → arguments attribute ≡ some predicate
          → Means attribute ([], env (to_string predicate))
      absent :
          {attribute args predicate : Tokens} {payloads : List Tokens}
          → keyword attribute ≡ some cfg_attr
          → arguments attribute ≡ some args
          → predicate_and_payloads (pop_empty (split_commas args)) ≡ some (predicate, payloads)
          → env (to_string predicate) ≡ false
          → Means attribute ([], true)
      present :
          {attribute args predicate : Tokens} {payloads : List Tokens} {m : Meaning}
          → keyword attribute ≡ some cfg_attr
          → arguments attribute ≡ some args
          → predicate_and_payloads (pop_empty (split_commas args)) ≡ some (predicate, payloads)
          → env (to_string predicate) ≡ true
          → MeansAll payloads m
          → Means attribute m

    -- Payloads, one behind the other.
    pub data MeansAll : List Tokens → Meaning → Type 0 where
      no_more : MeansAll [] ([], true)
      more :
          {payload : Tokens} {payloads : List Tokens} {m n : Meaning}
          → Means payload m
          → MeansAll payloads n
          → MeansAll (payload ∷ payloads) (both m n)

  -- The leading attributes, and the tokens behind them.
  pub data MeansInput : Tokens → Meaning → Type 0 where
    body : {input : Tokens} → leading input ≡ none → MeansInput input (input, true)
    attribute :
        {first second third : TokenTree} {rest tokens : Tokens} {m n : Meaning}
        → inner_attribute first second third ≡ some tokens
        → Means tokens m
        → MeansInput rest n
        → MeansInput (first ∷ second ∷ third ∷ rest) (both m n)
