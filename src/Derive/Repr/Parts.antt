-- ===== src/Derive/Repr/Parts.antt =====
-- What a successful `parse_repr` has read: the largest alignment, and no `packed`.
use co.Prelude.{
  ℕ, Bool, true, false, Option, none, some, Result, ok, err, and_then, List, [], ◌∷◌, ◌++◌, leb,
  ◌≡◌, ◌∙◌, sym, ap, refl, arith,
}
use co.Derive.Repr.{
  ReprKind, ReprToken, kind_token, align_token, packed_token, Repr, ReprError, packed_unsupported,
  duplicate_kind, merge_kind, Attr, other_attr, path_attr, list_attr, ParseState, push_error,
  set_kind, set_alignment, larger, replace_alignment, merge_alignment, parse_token, parse_tokens,
  parse_attrs, finish_parse, parse_repr,
}

module _ {ℓ} {L : Type ℓ} (base10_parse : L → Option ℕ) where
  value_at_least : ℕ → Option ℕ → Bool
  value_at_least n none = false
  value_at_least n (some m) = leb n m

  -- The alignment is there, and its value is at least `n`.
  unfoldable pub at_least : ℕ → Option L → Bool
  unfolding value_at_least
  at_least n none = false
  at_least n (some l) = value_at_least n (base10_parse l)

  set_kind_alignment :
      (k : Option ReprKind) (s : ParseState L) → (set_kind base10_parse k s).alignment ≡ s.alignment
  unfolding set_kind push_error
  set_kind_alignment none s = refl
  set_kind_alignment (some k) s = refl

  -- A test of the state, where there is one.
  holds : (ParseState L → Bool) → Result (ParseState L) (List ReprError) → Bool
  holds p (ok s) = p s
  holds p (err e) = true

  holds-and_then :
      (p q : ParseState L → Bool) (r : Result (ParseState L) (List ReprError))
      (f : ParseState L → Result (ParseState L) (List ReprError)) (first : holds p r ≡ true)
      (next : (s : ParseState L) → p s ≡ true → holds q (f s) ≡ true)
      → holds q (and_then r f) ≡ true
  unfolding holds
  holds-and_then p q (ok s) f first next = next s first
  holds-and_then p q (err e) f first next = refl

  aligned : ℕ → ParseState L → Bool
  aligned n s = at_least n s.alignment

  merge_keeps :
      (a : Option L) (l : L) (s : ParseState L) (now : s.alignment ≡ a) (n : ℕ)
      (before : at_least n a ≡ true)
      → holds (aligned n) (merge_alignment base10_parse a l s) ≡ true
  unfolding merge_alignment replace_alignment larger set_alignment at_least value_at_least holds
      aligned
  merge_keeps none l s now n before = ground arith
  merge_keeps (some existing) l s now n before = ground (arith, now, before)

  merge_takes :
      (a : Option L) (l : L) (s : ParseState L) (now : s.alignment ≡ a) (n : ℕ)
      (value : base10_parse l ≡ some n)
      → holds (aligned n) (merge_alignment base10_parse a l s) ≡ true
  unfolding merge_alignment replace_alignment larger set_alignment at_least value_at_least holds
      aligned
  merge_takes none l s now n value = ground (arith, value)
  merge_takes (some existing) l s now n value = ground (arith, now, value)

  step_keeps :
      (token : ReprToken L) (s : ParseState L) (n : ℕ) (before : aligned n s ≡ true)
      → holds (aligned n) (parse_token base10_parse token s) ≡ true
  unfolding parse_token holds aligned
  step_keeps (kind_token kind) s n before =
      rw (set_kind_alignment (merge_kind s.kind kind) s) before
  step_keeps (align_token l) s n before = merge_keeps s.alignment l s refl n before
  step_keeps packed_token s n before = before

  takes_alignment :
      (l : L) (s : ParseState L) (n : ℕ) (value : base10_parse l ≡ some n)
      → holds (aligned n) (parse_token base10_parse (align_token l) s) ≡ true
  unfolding parse_token
  takes_alignment l s n value = merge_takes s.alignment l s refl n value

  -- The tokens of all attributes, in order.
  unfoldable pub tokens_of : List (Attr L) → List (ReprToken L)
  tokens_of [] = []
  tokens_of (list_attr (some tokens) ∷ attrs) = tokens ++ tokens_of attrs
  tokens_of (_ ∷ attrs) = tokens_of attrs

  holds-true : (r : Result (ParseState L) (List ReprError)) → holds (λ s. true) r ≡ true
  unfolding holds
  holds-true (ok s) = refl
  holds-true (err e) = refl

  holds_transfer :
      (p : ParseState L → Bool) (r : Result (ParseState L) (List ReprError))
      (f g : ParseState L → Result (ParseState L) (List ReprError))
      (step : (s : ParseState L) → holds p (f s) ≡ true → holds p (g s) ≡ true)
      (before : holds p (and_then r f) ≡ true)
      → holds p (and_then r g) ≡ true
  unfolding holds
  holds_transfer p (ok s) f g step before = step s before
  holds_transfer p (err e) f g step before = refl

  and_then_step :
      (r : Result (ParseState L) (List ReprError))
      (f g h : ParseState L → Result (ParseState L) (List ReprError))
      (step : (s : ParseState L) → f s ≡ and_then (g s) h)
      → and_then r f ≡ and_then (and_then r g) h
  and_then_step (ok s) f g h step = step s
  and_then_step (err e) f g h step = refl

  parse_tokens-append :
      (xs ys : List (ReprToken L)) (s : ParseState L)
      → parse_tokens base10_parse (xs ++ ys) s
        ≡ and_then (parse_tokens base10_parse xs s) (parse_tokens base10_parse ys)
  unfolding parse_tokens
  parse_tokens-append [] ys s = refl
  parse_tokens-append (x ∷ xs) ys s =
      and_then_step (parse_token base10_parse x s) (parse_tokens base10_parse (xs ++ ys))
        (parse_tokens base10_parse xs) (parse_tokens base10_parse ys) (parse_tokens-append xs ys)

  attrs_lem :
      (p : ParseState L → Bool) (attrs : List (Attr L)) (s : ParseState L)
      (tokens : holds p (parse_tokens base10_parse (tokens_of attrs) s) ≡ true)
      → holds p (parse_attrs base10_parse attrs s) ≡ true
  unfolding parse_attrs tokens_of parse_tokens holds
  attrs_lem p [] s tokens = tokens
  attrs_lem p (list_attr (some ts) ∷ attrs) s tokens =
      holds_transfer p (parse_tokens base10_parse ts s)
        (parse_tokens base10_parse (tokens_of attrs)) (parse_attrs base10_parse attrs)
        (attrs_lem p attrs)
        (ap (holds p) (sym (parse_tokens-append ts (tokens_of attrs) s)) ∙ tokens)
  attrs_lem p (list_attr none ∷ attrs) s tokens = refl
  attrs_lem p (other_attr ∷ attrs) s tokens = attrs_lem p attrs s tokens
  attrs_lem p (path_attr ∷ attrs) s tokens = attrs_lem p attrs s tokens

  -- A test that every token keeps, and that one token makes true.
  module _ (p : ParseState L → Bool)
      (keeps : (token : ReprToken L) (s : ParseState L)
        → p s ≡ true
        → holds p (parse_token base10_parse token s) ≡ true) where
    tokens_keep :
        (tokens : List (ReprToken L)) (s : ParseState L) (before : p s ≡ true)
        → holds p (parse_tokens base10_parse tokens s) ≡ true
    unfolding parse_tokens holds
    tokens_keep [] s before = before
    tokens_keep (token ∷ tokens) s before =
        holds-and_then p p (parse_token base10_parse token s) (parse_tokens base10_parse tokens)
          (keeps token s before) (tokens_keep tokens)

    tokens_take :
        (t : ReprToken L)
        (takes : (s : ParseState L) → holds p (parse_token base10_parse t s) ≡ true)
        (before after : List (ReprToken L)) (s : ParseState L)
        → holds p (parse_tokens base10_parse (before ++ (t ∷ after)) s) ≡ true
    unfolding parse_tokens
    tokens_take t takes [] after s =
        holds-and_then p p (parse_token base10_parse t s) (parse_tokens base10_parse after)
          (takes s) (tokens_keep after)
    tokens_take t takes (x ∷ before) after s =
        holds-and_then (λ s. true) p (parse_token base10_parse x s)
          (parse_tokens base10_parse (before ++ (t ∷ after)))
          (holds-true (parse_token base10_parse x s)) (λ u ok. tokens_take t takes before after u)

    attrs_take :
        (t : ReprToken L)
        (takes : (s : ParseState L) → holds p (parse_token base10_parse t s) ≡ true)
        (attrs : List (Attr L)) (before after : List (ReprToken L))
        (split : tokens_of attrs ≡ before ++ (t ∷ after)) (s : ParseState L)
        → holds p (parse_attrs base10_parse attrs s) ≡ true
    attrs_take t takes attrs before after split s =
        attrs_lem p attrs s (rw split (tokens_take t takes before after s))

  -- A test of the final layout, where there is one.
  repr_holds : (Repr L → Bool) → Result (Repr L) (List ReprError) → Bool
  repr_holds p (ok r) = p r
  repr_holds p (err e) = true

  finish_errors :
      (n : ℕ) (errors : List ReprError) (s : ParseState L) (ok_s : aligned n s ≡ true)
      → repr_holds (λ r. at_least n r.alignment) (finish_parse base10_parse errors s) ≡ true
  unfolding finish_parse repr_holds aligned
  finish_errors n [] s ok_s = ok_s
  finish_errors n (e ∷ es) s ok_s = refl

  finish_lem :
      (n : ℕ) (q : Result (ParseState L) (List ReprError)) (ok_q : holds (aligned n) q ≡ true)
      → repr_holds
          (λ r. at_least n r.alignment)
          (and_then q (λ s. finish_parse base10_parse s.errors s))
        ≡ true
  unfolding holds repr_holds
  finish_lem n (ok s) ok_q = finish_errors n s.errors s ok_q
  finish_lem n (err e) ok_q = refl

  -- The alignment that `parse_repr` returns is at least each one that is written, in whichever
  -- attribute.
  pub parse_repr_alignment :
      (attrs : List (Attr L)) (before after : List (ReprToken L)) (l : L) (n : ℕ) (r : Repr L)
      (written : tokens_of attrs ≡ before ++ (align_token l ∷ after))
      (value : base10_parse l ≡ some n) (done : parse_repr base10_parse attrs ≡ ok r)
      → at_least n r.alignment ≡ true
  unfolding parse_repr repr_holds
  parse_repr_alignment attrs before after l n r written value done =
      let q =
        parse_attrs base10_parse attrs (record { kind = none; alignment = none; errors = [] }) in
      let kept =
        attrs_take (aligned n) (λ token s. step_keeps token s n) (align_token l)
          (λ s. takes_alignment l s n value) attrs before after written _ in
      ap (repr_holds (λ r. at_least n r.alignment)) (sym done) ∙ finish_lem n q kept

  has_errors : List ReprError → Bool
  has_errors [] = false
  has_errors (e ∷ es) = true

  failing : ParseState L → Bool
  unfolding has_errors
  failing s = has_errors s.errors

  has_errors-append : (es : List ReprError) (e : ReprError) → has_errors (es ++ (e ∷ [])) ≡ true
  unfolding has_errors
  has_errors-append [] e = refl
  has_errors-append (e' ∷ es) e = refl

  set_kind_fails :
      (k : Option ReprKind) (s : ParseState L) (before : failing s ≡ true)
      → failing (set_kind base10_parse k s) ≡ true
  unfolding set_kind push_error failing
  set_kind_fails none s before = has_errors-append s.errors duplicate_kind
  set_kind_fails (some k) s before = before

  merge_fails :
      (a : Option L) (l : L) (s : ParseState L) (before : failing s ≡ true)
      → holds failing (merge_alignment base10_parse a l s) ≡ true
  unfolding merge_alignment replace_alignment larger set_alignment holds failing
  merge_fails none l s before = before
  merge_fails (some existing) l s before = ground (arith, before)

  step_fails :
      (token : ReprToken L) (s : ParseState L) (before : failing s ≡ true)
      → holds failing (parse_token base10_parse token s) ≡ true
  unfolding parse_token holds push_error failing
  step_fails (kind_token kind) s before = set_kind_fails (merge_kind s.kind kind) s before
  step_fails (align_token l) s before = merge_fails s.alignment l s before
  step_fails packed_token s before = has_errors-append s.errors packed_unsupported

  packed_fails : (s : ParseState L) → holds failing (parse_token base10_parse packed_token s) ≡ true
  unfolding parse_token holds push_error failing
  packed_fails s = has_errors-append s.errors packed_unsupported

  unfoldable pub is_err : Result (Repr L) (List ReprError) → Bool
  is_err (ok r) = false
  is_err (err e) = true

  finish_errors_fail :
      (errors : List ReprError) (s : ParseState L) (some_error : has_errors errors ≡ true)
      → is_err (finish_parse base10_parse errors s) ≡ true
  unfolding finish_parse is_err has_errors
  finish_errors_fail [] s some_error = some_error
  finish_errors_fail (e ∷ es) s some_error = refl

  finish_fails :
      (q : Result (ParseState L) (List ReprError)) (ok_q : holds failing q ≡ true)
      → is_err (and_then q (λ s. finish_parse base10_parse s.errors s)) ≡ true
  unfolding holds is_err failing
  finish_fails (ok s) ok_q = finish_errors_fail s.errors s ok_q
  finish_fails (err e) ok_q = refl

  -- A `packed` in any attribute makes `parse_repr` fail, whatever else is written.
  pub parse_repr_packed :
      (attrs : List (Attr L)) (before after : List (ReprToken L))
      (written : tokens_of attrs ≡ before ++ (packed_token ∷ after))
      → is_err (parse_repr base10_parse attrs) ≡ true
  unfolding parse_repr
  parse_repr_packed attrs before after written =
      finish_fails
        (parse_attrs base10_parse attrs (record { kind = none; alignment = none; errors = [] }))
        (attrs_take failing step_fails packed_token packed_fails attrs before after written _)
