-- ===== src/Derive/CfgAttr/Laws.antt =====
-- Under any configuration exactly one of the variants applies, and it holds what the attributes mean
-- there.
use Prim.Native.String.{String}
use text.Mathlib.Text.{◌==◌ as str_eq}
use text.Mathlib.TextEquality.{eq_iff}
use co.Prelude.{
  Bool, true, false, not, ◌&&◌, Option, none, some, List, [], ◌∷◌, ◌++◌, map, Bool-cases,
  if◌then◌else◌, ◌≡◌, ◌∙◌, refl, inl, inr, arith, ◌>>=◌,
}
use co.Derive.CfgTokens.{Tokens}
use co.Derive.CfgAttr.{
  Variant, find_cfg, differ, add_cfg, merge_cfgs, push_merged, append_right, append_variants,
}

-- What the compiler sees of a variant: its tokens, and whether the invocation is there at all.
abbrev pub Meaning : Type 0
Meaning = Tokens × Bool

unfoldable pub both : Meaning → Meaning → Meaning
both a b = (a.0 ++ b.0, a.1 && b.1)

unfoldable pub keep_if : Bool → Variant → List Meaning → List Meaning
keep_if true v rest = (v.tokens, v.active) ∷ rest
keep_if false v rest = rest

module _ (to_string : Tokens → String) (env : String → Bool) where
  -- The compiler's answer to one recorded condition.
  unfoldable pub holds : Tokens → Bool → Bool
  holds predicate true = env (to_string predicate)
  holds predicate false = not (env (to_string predicate))

  unfoldable pub applies : List (Tokens × Bool) → Bool
  unfolding holds
  applies [] = true
  applies ((predicate, enabled) ∷ cfgs) = holds predicate enabled && applies cfgs

  -- The variants whose conditions hold.
  unfoldable pub selected : List Variant → List Meaning
  unfolding applies keep_if
  selected [] = []
  selected (v ∷ vs) = keep_if (applies v.cfgs) v (selected vs)

  applies-append : (xs ys : List (Tokens × Bool)) → applies (xs ++ ys) ≡ applies xs && applies ys
  unfolding applies
  applies-append [] ys = refl
  applies-append ((p, b) ∷ xs) ys = ground (arith, applies-append xs ys)

  pub selected-append : (xs ys : List Variant) → selected (xs ++ ys) ≡ selected xs ++ selected ys
  unfolding selected
  selected-append [] ys = refl
  selected-append (v ∷ vs) ys = ground (arith, selected-append vs ys)

  holds_same : (p q : Tokens) (b : Bool) (same : to_string q ≡ to_string p) → holds p b ≡ holds q b
  unfolding holds
  holds_same p q true same = rw same refl
  holds_same p q false same = rw same refl

  -- A condition that is recorded is decided.
  find_cfg_decides :
      (p : Tokens) (previous : Bool) (cfgs : List (Tokens × Bool))
      (found : find_cfg to_string p cfgs ≡ some previous) (hold : applies cfgs ≡ true)
      → holds p previous ≡ true
  unfolding find_cfg applies
  find_cfg_decides p previous [] found hold = cc
  find_cfg_decides p previous ((q, b) ∷ cfgs) found hold =
      elim (Bool-cases (str_eq (to_string q) (to_string p))) [
        | inl same ↦
            ground (arith, holds_same p q previous ((eq_iff (to_string q) (to_string p)).0 same))
        | inr differs ↦ ground (arith, find_cfg_decides p previous cfgs)
      ]

  unfoldable merged_applies : Option (List (Tokens × Bool)) → Bool
  unfolding applies
  merged_applies none = false
  merged_applies (some cfgs) = applies cfgs

  -- The two branches of a condition exclude each other.
  holds-differ :
      (p : Tokens) (a b : Bool)
      → (differ a b ≡ true → holds p a ≡ not (holds p b))
        × (differ a b ≡ false → holds p a ≡ holds p b)
  unfolding holds differ
  holds-differ p true true = ground arith
  holds-differ p true false = ground arith
  holds-differ p false true = ground arith
  holds-differ p false false = ground arith

  add_cfg_lem :
      (p : Tokens) (b : Bool) (cfgs : List (Tokens × Bool)) (previous : Option Bool)
      (found : find_cfg to_string p cfgs ≡ previous)
      → merged_applies (add_cfg to_string p b cfgs previous) ≡ applies cfgs && holds p b
  unfolding add_cfg merged_applies applies
  add_cfg_lem p b cfgs none found = ground (arith, applies-append cfgs ((p, b) ∷ []))
  add_cfg_lem p b cfgs (some previous) found =
      ground (arith, find_cfg_decides p previous cfgs found, holds-differ p previous b)

  -- Merging is conjunction, and contradictory conditions are those that never hold together.
  merge_cfgs_lem :
      (cfgs rest : List (Tokens × Bool))
      → merged_applies (merge_cfgs to_string cfgs rest) ≡ applies cfgs && applies rest
  unfolding merge_cfgs merged_applies applies
  merge_cfgs_lem cfgs [] = ground arith
  merge_cfgs_lem cfgs ((p, b) ∷ rest) =
      merge_added (add_cfg to_string p b cfgs (find_cfg to_string p cfgs))
        (add_cfg_lem p b cfgs (find_cfg to_string p cfgs) refl) (λ c. merge_cfgs_lem c rest)
    where
      merge_added :
          (added : Option (List (Tokens × Bool)))
          → merged_applies added ≡ applies cfgs && holds p b
          → ((c : List (Tokens × Bool))
              → merged_applies (merge_cfgs to_string c rest) ≡ applies c && applies rest)
          → merged_applies (added >>= λ c. merge_cfgs to_string c rest)
            ≡ applies cfgs && (holds p b && applies rest)
      merge_added none e later = ground arith
      merge_added (some c) e later = ground (arith, later c)

  selected-push_merged :
      (merged : Option (List (Tokens × Bool))) (left right : Variant) (out : List Variant)
      → selected (push_merged merged left right out) ≡ (
          if merged_applies merged
          then both (left.tokens, left.active) (right.tokens, right.active) ∷ selected out
          else selected out)
  unfolding push_merged selected merged_applies both keep_if
  selected-push_merged none left right out = refl
  selected-push_merged (some cfgs) left right out = ground arith

  -- Variants are multiplied.
  selected-append_right :
      (left : Variant) (rhs : List Variant)
      → selected (append_right to_string left rhs)
        ≡ (if applies left.cfgs then map (both (left.tokens, left.active)) (selected rhs) else [])
  unfolding append_right selected keep_if
  selected-append_right left [] = ground arith
  selected-append_right left (right ∷ rhs) =
      selected-push_merged (merge_cfgs to_string left.cfgs right.cfgs) left right
        (append_right to_string left rhs)
      ∙ ground (arith, merge_cfgs_lem left.cfgs right.cfgs, selected-append_right left rhs)

  pub selected-append_variants :
      (lhs rhs : List Variant) (r : Meaning) (one : selected rhs ≡ r ∷ [])
      → selected (append_variants to_string lhs rhs) ≡ map (λ l. both l r) (selected lhs)
  unfolding append_variants selected keep_if
  selected-append_variants [] rhs r one = refl
  selected-append_variants (left ∷ lhs) rhs r one =
      selected-append (append_right to_string left rhs) (append_variants to_string lhs rhs)
      ∙ ground (arith, selected-append_right left rhs, selected-append_variants lhs rhs r one, one)
