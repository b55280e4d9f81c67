-- ===== src/Derive/SoftLifetimes/Output.antt =====
-- Which lifetimes the result of a function has.
use co.Prelude.{
  Bool, true, false, not, ◌&&◌, ◌||◌, Option, none, some, map_some, List, [], ◌∷◌, ◌++◌,
  if◌then◌else◌, ◌≡◌, ◌∙◌, refl, arith,
}
use co.Derive.SoftLifetimes.{
  Lifetime, underscore, fresh, named, Ty, done, lifetime, reference, fn_ptr, is_elided,
  or_underscore, explicate, explicate_output,
}
use co.Derive.SoftLifetimes.Validate.{has_lifetime, collect_lifetimes, any_soft, output_errors}
use co.Derive.SoftLifetimes.Visit.{is_own, is_written}

-- Whether a type has an elided lifetime, function pointers aside.
unfoldable pub has_elided : Ty → Bool
has_elided done = false
has_elided (lifetime l rest) = is_elided (some l) || has_elided rest
has_elided (reference l elem rest) = is_elided l || (has_elided elem || has_elided rest)
has_elided (fn_ptr inner rest) = has_elided rest

abbrev pub is_true : Option Bool → Bool
is_true (some true) = true
is_true (some false) = false
is_true none = false

abbrev pub is_written_output : Option Ty → Bool
is_written_output none = true
is_written_output (some output) = is_written output

abbrev pub has_elided_output : Option Ty → Bool
has_elided_output none = false
has_elided_output (some output) = has_elided output

abbrev pub is_nil {ℓ} : {A : Type ℓ} → List A → Bool
is_nil [] = true
is_nil (x ∷ xs) = false

any_soft-append :
    (soft xs ys : List Lifetime) → any_soft soft (xs ++ ys) ≡ (any_soft soft xs || any_soft soft ys)
unfolding any_soft
any_soft-append soft [] ys = refl
any_soft-append soft (x ∷ xs) ys = ground (arith, any_soft-append soft xs ys)

module _ (soft : List Lifetime)
    (no_own : (l : Lifetime) → is_own l ≡ true → has_lifetime soft l ≡ false) where
  written-any_soft :
      (t : Ty) (written : is_written t ≡ true) → any_soft soft (collect_lifetimes t) ≡ false
  unfolding is_written any_soft collect_lifetimes is_own
  written-any_soft done written = refl
  written-any_soft (lifetime l rest) written =
      rw (no_own l (ground (arith, written))) (written-any_soft rest (ground (arith, written)))
  written-any_soft (reference none elem rest) written =
      any_soft-append soft (collect_lifetimes elem) (collect_lifetimes rest)
      ∙ rw
          (
            written-any_soft elem (ground (arith, written)),
            written-any_soft rest (ground (arith, written)),
          )
          refl
  written-any_soft (reference (some l) elem rest) written =
      rw
        (
          no_own l (ground (arith, written)),
          any_soft-append soft (collect_lifetimes elem) (collect_lifetimes rest),
          written-any_soft elem (ground (arith, written)),
          written-any_soft rest (ground (arith, written)),
        )
        refl
  written-any_soft (fn_ptr inner rest) written =
      any_soft-append soft (collect_lifetimes inner) (collect_lifetimes rest)
      ∙ rw
          (
            written-any_soft inner (ground (arith, written)),
            written-any_soft rest (ground (arith, written)),
          )
          refl

  chosen_flag :
      (l k : Lifetime) (own : is_own k ≡ true)
      → has_lifetime soft (if is_elided (some k) then l else k)
        ≡ (is_elided (some k) && has_lifetime soft l)
  unfolding is_own
  chosen_flag l underscore own = refl
  chosen_flag l (fresh i) own = cc
  chosen_flag l (named x) own = no_own (named x) refl

  chosen_reference :
      (l : Lifetime) (k : Option Lifetime) (own : is_own (or_underscore k) ≡ true) (elem rest : Ty)
      → any_soft soft (collect_lifetimes (reference (if is_elided k then some l else k) elem rest))
        ≡ ((is_elided k && has_lifetime soft l)
            || (any_soft soft (collect_lifetimes elem) || any_soft soft (collect_lifetimes rest)))
  unfolding is_own any_soft collect_lifetimes
  chosen_reference l none own elem rest =
      rw (any_soft-append soft (collect_lifetimes elem) (collect_lifetimes rest)) refl
  chosen_reference l (some underscore) own elem rest =
      rw (any_soft-append soft (collect_lifetimes elem) (collect_lifetimes rest)) refl
  chosen_reference l (some (fresh i)) own elem rest = cc
  chosen_reference l (some (named x)) own elem rest =
      rw
        (
          any_soft-append soft (collect_lifetimes elem) (collect_lifetimes rest),
          no_own (named x) refl,
        )
        refl

  -- The result has a soft lifetime exactly if an elided one is filled with one.
  explicate-any_soft :
      (l : Lifetime) (t : Ty) (written : is_written t ≡ true)
      → any_soft soft (collect_lifetimes (explicate l t)) ≡ (has_elided t && has_lifetime soft l)
  unfolding is_written any_soft collect_lifetimes explicate has_elided
  explicate-any_soft l done written = refl
  explicate-any_soft l (lifetime k rest) written = ground (
    arith,
    chosen_flag l k (ground (arith, written)),
    explicate-any_soft l rest (ground (arith, written)),
  )
  explicate-any_soft l (reference k elem rest) written =
      chosen_reference l k (ground (arith, written)) (explicate l elem) (explicate l rest)
      ∙ ground (
        arith,
        explicate-any_soft l elem (ground (arith, written)),
        explicate-any_soft l rest (ground (arith, written)),
      )
  explicate-any_soft l (fn_ptr inner rest) written =
      any_soft-append soft (collect_lifetimes inner) (collect_lifetimes (explicate l rest))
      ∙ rw (written-any_soft inner (ground (arith, written)))
          (explicate-any_soft l rest (ground (arith, written)))

  pub output_none :
      (source : Option Lifetime) (output : Option Ty) (written : is_written_output output ≡ true)
      → is_nil (output_errors soft (explicate_output source output))
        ≡ not (has_elided_output output && is_true (map_some (has_lifetime soft) source))
  unfolding output_errors explicate_output
  output_none none none written = refl
  output_none (some l) none written = refl
  output_none none (some t) written = ground (arith, written-any_soft t written)
  output_none (some l) (some t) written = ground (arith, explicate-any_soft l t written)
