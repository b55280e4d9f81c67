-- ===== src/Derive/CfgAttr/Selects.antt =====
-- The variants of `expand` are what the attributes mean.
use Prim.Native.String.{String}
use co.Prelude.{
  ℕ, zero, suc, Bool, true, false, ◌&&◌, Option, none, some, List, [], ◌∷◌, ◌++◌, map, Result, ok,
  and_then-ok, if◌then◌else◌, Bool-cases, ◌≡◌, ◌∙◌, refl, ap, inl, inr, arith, append_assoc,
  append_nil,
}
use co.Derive.Tokens.{depth}
use co.Derive.CfgTokens.{
  Tokens, Keyword, cfg, cfg_attr, keyword, arguments, split_commas, pop_empty,
  predicate_and_payloads, quote_attr, inner_attribute,
}
use co.Derive.CfgAttr.{
  Variant, CfgError, plain, append_variants, expand_payloads, condition, expand_cfg_attr,
  expand_conditional, expand_keyword, expand_loop, expand_attribute, extend_all, expand_round,
  expand_from, expand, active_variants,
}
use co.Derive.CfgAttr.Laws.{
  Meaning, both, holds, applies, keep_if, selected, selected-append, selected-append_variants,
}
use co.Derive.CfgAttr.Meaning.{
  Means, MeansAll, MeansInput, leading, unconditional, gate, absent, present, no_more, more, body,
  attribute,
}

module _ (to_string : Tokens → String) (env : String → Bool) where
  abbrev Expands : (Tokens → Result (List Variant) CfgError) → Type 0
  Expands next =
      (tokens : Tokens) (vs : List Variant)
      → next tokens ≡ ok vs
      → (m : Meaning) × Means to_string env tokens m × (selected to_string env vs ≡ m ∷ [])

  both_assoc : (a b c : Meaning) → both (both a b) c ≡ both a (both b c)
  unfolding both
  both_assoc (a, true) b c = ap (λ t. (t, b.1 && c.1)) (append_assoc a b.0 c.0)
  both_assoc (a, false) b c = ap (λ t. (t, false)) (append_assoc a b.0 c.0)

  both_unit : (a : Meaning) → both a ([], true) ≡ a
  unfolding both
  both_unit (a, true) = ap (λ t. (t, true)) (append_nil a)
  both_unit (a, false) = ap (λ t. (t, false)) (append_nil a)

  expand_payloads_lem :
      (next : Tokens → Result (List Variant) CfgError) (next_lem : Expands next)
      (parts : List Tokens) (before vs : List Variant) (m : Meaning)
      (one : selected to_string env before ≡ m ∷ [])
      (done : expand_payloads to_string next before parts ≡ ok vs)
      → (n : Meaning) × MeansAll to_string env parts n × (selected to_string env vs ≡ both m n ∷ [])
  unfolding expand_payloads
  expand_payloads_lem next next_lem [] before vs m one done =
      (([], true), no_more, rw (both_unit m) (ground (arith, one)))
  expand_payloads_lem next next_lem (payload ∷ parts) before vs m one done =
      let (found, e, later) = and_then-ok (next payload) _ vs done in
      let (p, means, selects) = next_lem payload found e in
      let (n, all, selects') =
        expand_payloads_lem next next_lem parts (append_variants to_string before found) vs
          (both m p)
          (selected-append_variants to_string env before found p selects
            ∙ ap (map (λ l. both l p)) one)
          later in
      (both p n, more means all, selects' ∙ ap (λ x. x ∷ []) (both_assoc m p n))

  unit_both : (a : Meaning) → both ([], true) a ≡ a
  unfolding both
  unit_both a = refl

  expand_cfg_attr_lem :
      (next : Tokens → Result (List Variant) CfgError) (next_lem : Expands next)
      (tokens args : Tokens) (k : keyword tokens ≡ some cfg_attr) (a : arguments tokens ≡ some args)
      (parts : Option (Tokens × List Tokens))
      (split : predicate_and_payloads (pop_empty (split_commas args)) ≡ parts) (vs : List Variant)
      (done : expand_cfg_attr to_string next parts ≡ ok vs)
      → (m : Meaning) × Means to_string env tokens m × (selected to_string env vs ≡ m ∷ [])
  unfolding expand_cfg_attr plain selected keep_if applies holds condition
  expand_cfg_attr_lem next next_lem tokens args k a none split vs done = cc
  expand_cfg_attr_lem next next_lem tokens args k a (some (predicate, payloads)) split vs done =
      let (found, e, later) =
        and_then-ok (expand_payloads to_string next (plain [] ∷ []) payloads) _ vs done in
      let (n, all, selects) =
        expand_payloads_lem next next_lem payloads (plain [] ∷ []) found ([], true) refl e in
      let on = condition predicate true true ∷ [] in
      let off = condition predicate false true ∷ [] in
      let split_on =
        selected-append to_string env (append_variants to_string on found) off
        ∙ ap (λ x. x ++ selected to_string env off)
            (selected-append_variants to_string env on found n
              (selects ∙ ap (λ x. x ∷ []) (unit_both n))) in
      elim (Bool-cases (env (to_string predicate))) [
        | inl holds ↦ (n, present k a split holds all, ground (arith, unit_both n, split_on))
        | inr fails ↦ (([], true), absent k a split fails, ground (arith, split_on))
      ]

  expand_conditional_lem :
      (next : Tokens → Result (List Variant) CfgError) (next_lem : Expands next) (tokens : Tokens)
      (k : Keyword) (key : keyword tokens ≡ some k) (args : Option Tokens)
      (a : arguments tokens ≡ args) (vs : List Variant)
      (done : expand_conditional to_string next k args ≡ ok vs)
      → (m : Meaning) × Means to_string env tokens m × (selected to_string env vs ≡ m ∷ [])
  unfolding expand_conditional selected keep_if applies holds condition
  expand_conditional_lem next next_lem tokens k key none a vs done = cc
  expand_conditional_lem next next_lem tokens cfg key (some predicate) a vs done =
      (([], env (to_string predicate)), gate key a, ground arith)
  expand_conditional_lem next next_lem tokens cfg_attr key (some args) a vs done =
      expand_cfg_attr_lem next next_lem tokens args key a
        (predicate_and_payloads (pop_empty (split_commas args))) refl vs done

  expand_keyword_lem :
      (next : Tokens → Result (List Variant) CfgError) (next_lem : Expands next) (tokens : Tokens)
      (k : Option Keyword) (key : keyword tokens ≡ k) (vs : List Variant)
      (done : expand_keyword to_string next tokens k ≡ ok vs)
      → (m : Meaning) × Means to_string env tokens m × (selected to_string env vs ≡ m ∷ [])
  unfolding expand_keyword selected keep_if applies plain
  expand_keyword_lem next next_lem tokens none key vs done =
      ((quote_attr tokens, true), unconditional key, ground arith)
  expand_keyword_lem next next_lem tokens (some k) key vs done =
      expand_conditional_lem next next_lem tokens k key (arguments tokens) refl vs done

  expand_loop_lem : (fuel : ℕ) → Expands (expand_loop to_string fuel)
  unfolding expand_loop
  expand_loop_lem zero tokens vs done = cc
  expand_loop_lem (suc fuel) tokens vs done =
      expand_keyword_lem (expand_loop to_string fuel) (expand_loop_lem fuel) tokens (keyword tokens)
        refl vs done

  selected-extend_all :
      (rest : Tokens) (vs : List Variant)
      → selected to_string env (extend_all rest vs)
        ≡ map (λ m. both m (rest, true)) (selected to_string env vs)
  unfolding selected extend_all keep_if both
  selected-extend_all rest [] = refl
  selected-extend_all rest (v ∷ vs) = ground (arith, selected-extend_all rest vs)

  extend_all_lem :
      (rest : Tokens) (before vs : List Variant) (m : Meaning)
      (one : selected to_string env before ≡ m ∷ [])
      (done : ◌≡◌ {A = Result (List Variant) CfgError} (ok (extend_all rest before)) (ok vs))
      → selected to_string env vs ≡ both m (rest, true) ∷ []
  extend_all_lem rest before vs m one done =
      ground (arith, selected-extend_all rest before, one, done)

  expand_from_lem :
      (input : Tokens) (before vs : List Variant) (m : Meaning)
      (one : selected to_string env before ≡ m ∷ [])
      (done : expand_from to_string input before ≡ ok vs)
      → (n : Meaning) × MeansInput to_string env input n
        × (selected to_string env vs ≡ both m n ∷ [])
  unfolding expand_from leading expand_round expand_attribute
  expand_from_lem [] before vs m one done =
      (([], true), body refl, extend_all_lem [] before vs m one done)
  expand_from_lem (a ∷ []) before vs m one done =
      ((a ∷ [], true), body refl, extend_all_lem (a ∷ []) before vs m one done)
  expand_from_lem (a ∷ b ∷ []) before vs m one done =
      ((a ∷ b ∷ [], true), body refl, extend_all_lem (a ∷ b ∷ []) before vs m one done)
  expand_from_lem (a ∷ b ∷ c ∷ rest) before vs m one done =
      from_attribute (inner_attribute a b c) refl done (expand_from_lem rest)
    where
      from_attribute :
          (found : Option Tokens)
          → inner_attribute a b c ≡ found
          → expand_round to_string (expand_from to_string rest) (a ∷ b ∷ c ∷ rest) before found
            ≡ ok vs
          → ((before' vs' : List Variant) (m' : Meaning)
              → selected to_string env before' ≡ m' ∷ []
              → expand_from to_string rest before' ≡ ok vs'
              → (n : Meaning) × MeansInput to_string env rest n
                × (selected to_string env vs' ≡ both m' n ∷ []))
          → (n : Meaning) × MeansInput to_string env (a ∷ b ∷ c ∷ rest) n
            × (selected to_string env vs ≡ both m n ∷ [])
      from_attribute none e done later =
          ((a ∷ b ∷ c ∷ rest, true), body e, extend_all_lem (a ∷ b ∷ c ∷ rest) before vs m one done)
      from_attribute (some tokens) e done later =
          let (found, here, after) = and_then-ok (expand_attribute to_string tokens) _ vs done in
          let (p, means, selects) = expand_loop_lem (suc (depth tokens)) tokens found here in
          let (n, input, selects') =
            later (append_variants to_string before found) vs (both m p)
              (selected-append_variants to_string env before found p selects
                ∙ ap (map (λ l. both l p)) one)
              after in
          (both p n, attribute e means input, selects' ∙ ap (λ x. x ∷ []) (both_assoc m p n))

  unfoldable pub keep_active : List Meaning → List Meaning
  keep_active [] = []
  keep_active (m ∷ ms) = if m.1 then m ∷ keep_active ms else keep_active ms

  selected-active_variants :
      (vs : List Variant)
      → selected to_string env (active_variants vs) ≡ keep_active (selected to_string env vs)
  unfolding selected active_variants keep_active keep_if
  selected-active_variants [] = refl
  selected-active_variants (v ∷ vs) = ground (arith, selected-active_variants vs)

  -- Where `expand` succeeds, the conditions of exactly one variant hold under any configuration, and
  -- its tokens and its flag are what the leading attributes and the body mean there. It is emitted
  -- exactly if its flag is set.
  pub expand_selects :
      (input : Tokens) (vs : List Variant) (done : expand to_string input ≡ ok vs)
      → (m : Meaning) × MeansInput to_string env input m
        × (selected to_string env vs ≡ m ∷ [])
        × (selected to_string env (active_variants vs) ≡ (if m.1 then m ∷ [] else []))
  unfolding expand selected plain keep_if applies keep_active
  expand_selects input vs done =
      let (n, input_means, selects) =
        expand_from_lem input (plain [] ∷ []) vs ([], true) refl done in
      let one = selects ∙ ap (λ x. x ∷ []) (unit_both n) in
      (n, input_means, one, selected-active_variants vs ∙ ap keep_active one)
