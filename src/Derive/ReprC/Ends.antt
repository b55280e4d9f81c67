-- ===== src/Derive/ReprC/Ends.antt =====
-- `derive_repr_c` ends with a plan or with errors, `parse_repr` included.
use co.Prelude.{
  ℕ, Bool, true, false, Option, none, some, Result, ok, err, and_then, List, [], ◌∷◌, ◌≡◌, ◌⊎◌, inl,
  inr, refl,
}
use co.Derive.Repr.{
  ReprToken, kind_token, align_token, packed_token, Repr, ReprError, Attr, other_attr, path_attr,
  list_attr, ParseState, replace_alignment, merge_alignment, parse_token, parse_tokens, parse_attrs,
  finish_parse, parse_repr,
}
use co.Derive.ReprC.{parse_repr_c_attrs}
use co.Derive.ReprC.Input.{DeriveInput, DeriveError, Stop, errors, panicked}
use co.Derive.ReprC.Checks.{attr_stop}
use co.Derive.ReprC.Expand.{Plan, repr_stop, derive_repr_c}
use co.Derive.ReprC.Laws.{Returns, and_then-Returns, attr_stop-Returns, checked-Returns}

-- A failure that reports something.
abbrev Reports {ℓ} : {T : Type ℓ} → Result T (List ReprError) → Type 0
Reports (ok t) = Unit
Reports (err []) = ⊥
Reports (err (e ∷ es)) = Unit

and_then-Reports {ℓ κ} :
    {T : Type ℓ} {U : Type κ} (r : Result T (List ReprError)) (f : T → Result U (List ReprError))
    (first : Reports r) (rest : (t : T) → Reports (f t))
    → Reports (and_then r f)
and_then-Reports (ok t) f first rest = rest t
and_then-Reports (err []) f first rest = first
and_then-Reports (err (e ∷ es)) f first rest = tt

module _ {ℓ} {L : Type ℓ} (base10_parse : L → Option ℕ) where
  replace-Reports :
      (test : Option Bool) (l : L) (s : ParseState L)
      → Reports (replace_alignment base10_parse test l s)
  unfolding replace_alignment
  replace-Reports none l s = tt
  replace-Reports (some true) l s = tt
  replace-Reports (some false) l s = tt

  merge-Reports :
      (earlier : Option L) (l : L) (s : ParseState L)
      → Reports (merge_alignment base10_parse earlier l s)
  unfolding merge_alignment
  merge-Reports none l s = tt
  merge-Reports (some existing) l s = replace-Reports _ l s

  token-Reports :
      (token : ReprToken L) (s : ParseState L) → Reports (parse_token base10_parse token s)
  unfolding parse_token
  token-Reports (kind_token kind) s = tt
  token-Reports (align_token l) s = merge-Reports s.alignment l s
  token-Reports packed_token s = tt

  tokens-Reports :
      (tokens : List (ReprToken L)) (s : ParseState L)
      → Reports (parse_tokens base10_parse tokens s)
  unfolding parse_tokens
  tokens-Reports [] s = tt
  tokens-Reports (token ∷ tokens) s =
      and_then-Reports (parse_token base10_parse token s) _ (token-Reports token s)
        (tokens-Reports tokens)

  attrs-Reports :
      (attrs : List (Attr L)) (s : ParseState L) → Reports (parse_attrs base10_parse attrs s)
  unfolding parse_attrs
  attrs-Reports [] s = tt
  attrs-Reports (other_attr ∷ attrs) s = attrs-Reports attrs s
  attrs-Reports (path_attr ∷ attrs) s = attrs-Reports attrs s
  attrs-Reports (list_attr none ∷ attrs) s = tt
  attrs-Reports (list_attr (some tokens) ∷ attrs) s =
      and_then-Reports (parse_tokens base10_parse tokens s) _ (tokens-Reports tokens s)
        (attrs-Reports attrs)

  finish-Reports :
      (es : List ReprError) (s : ParseState L) → Reports (finish_parse base10_parse es s)
  unfolding finish_parse
  finish-Reports [] s = tt
  finish-Reports (e ∷ es) s = tt

  parse_repr-Reports : (attrs : List (Attr L)) → Reports (parse_repr base10_parse attrs)
  unfolding parse_repr
  parse_repr-Reports attrs =
      and_then-Reports (parse_attrs base10_parse attrs _) _ (attrs-Reports attrs _)
        (λ s. finish-Reports s.errors s)

  repr_stop-Returns :
      (r : Result (Repr L) (List ReprError)) (reports : Reports r) → Returns (repr_stop r)
  unfolding repr_stop
  repr_stop-Returns (ok repr) reports = tt
  repr_stop-Returns (err []) reports = reports
  repr_stop-Returns (err (e ∷ es)) reports = tt

  derive-Returns : (input : DeriveInput L) → Returns (derive_repr_c base10_parse input)
  unfolding derive_repr_c
  derive-Returns input =
      and_then-Returns (repr_stop (parse_repr base10_parse input.repr_attrs)) _
        (repr_stop-Returns (parse_repr base10_parse input.repr_attrs)
          (parse_repr-Reports input.repr_attrs))
        (λ repr e.
          and_then-Returns (attr_stop (parse_repr_c_attrs input.attrs)) _
            (attr_stop-Returns (parse_repr_c_attrs input.attrs))
            (λ a f. checked-Returns a repr.kind input.body))

  outcome :
      (r : Result Plan Stop) (returns : Returns r)
      → ((plan : Plan) × (r ≡ ok plan))
        ⊎ ((e : DeriveError) × (es : List DeriveError) × (r ≡ err (errors (e ∷ es))))
  outcome (ok plan) returns = inl (plan, refl)
  outcome (err (errors [])) returns = absurd returns
  outcome (err (errors (e ∷ es))) returns = inr (e, es, refl)
  outcome (err panicked) returns = absurd returns

  -- For any input the derive either prints or reports at least one error: it reaches none of its
  -- `unreachable!`, and no index that is out of bounds.
  pub derive_repr_c_ends :
      (input : DeriveInput L)
      → ((plan : Plan) × (derive_repr_c base10_parse input ≡ ok plan))
        ⊎ ((e : DeriveError) × (es : List DeriveError) × (derive_repr_c base10_parse input
              ≡ err (errors (e ∷ es))))
  derive_repr_c_ends input = outcome (derive_repr_c base10_parse input) (derive-Returns input)
