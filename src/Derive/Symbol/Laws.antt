-- ===== src/Derive/Symbol/Laws.antt =====
-- A sanitized component is a part of an identifier, and sanitizing it again changes nothing.
use co.Prelude.{ℕ, Bool, true, false, not, ◌&&◌, List, [], ◌∷◌, length, ◌==◌, ◌≡◌, refl, arith}
use co.Derive.Symbol.{
  underscore, is_ascii_alphanumeric, keep, sanitize_loop, trim_start, trim_end, trim_last, or_ty,
  sanitize_symbol_component,
}

-- Every character is a letter, a digit or `_`.
unfoldable pub all_keep : List ℕ → Bool
all_keep [] = true
all_keep (ch ∷ out) = keep ch && all_keep out

-- The first character, where there is one, is not `_`.
unfoldable pub starts_clean : List ℕ → Bool
starts_clean [] = true
starts_clean (ch ∷ out) = not (ch == underscore)

-- The last character, where there is one, is not `_`.
unfoldable pub ends_clean : List ℕ → Bool
ends_clean [] = true
ends_clean (ch ∷ []) = not (ch == underscore)
ends_clean (_ ∷ c ∷ out) = ends_clean (c ∷ out)

all_keep-sanitize_loop : (prev : Bool) (input : List ℕ) → all_keep (sanitize_loop prev input) ≡ true
unfolding all_keep sanitize_loop keep is_ascii_alphanumeric
all_keep-sanitize_loop prev [] = refl
all_keep-sanitize_loop prev (ch ∷ input) =
    ground
      (arith, all_keep-sanitize_loop (ch == underscore) input, all_keep-sanitize_loop true input)

sanitize_loop_kept :
    (prev : Bool) (input : List ℕ) (ok : all_keep input ≡ true) → sanitize_loop prev input ≡ input
unfolding all_keep sanitize_loop
sanitize_loop_kept prev [] ok = refl
sanitize_loop_kept prev (ch ∷ input) ok =
    ground (arith, sanitize_loop_kept (ch == underscore) input)

trim_start_lem :
    (out : List ℕ) (ok : all_keep out ≡ true)
    → (all_keep (trim_start out) ≡ true) × (starts_clean (trim_start out) ≡ true)
unfolding all_keep trim_start starts_clean
trim_start_lem [] ok = (refl, refl)
trim_start_lem (ch ∷ out) ok = ground (arith, trim_start_lem out)

trim_last_lem :
    (ch : ℕ) (out : List ℕ) (ok : keep ch ≡ true) (rest : all_keep out ≡ true)
    (ends : ends_clean out ≡ true)
    → (all_keep (trim_last ch out) ≡ true)
      × (ends_clean (trim_last ch out) ≡ true)
      × (not (ch == underscore) ≡ true → starts_clean (trim_last ch out) ≡ true)
unfolding all_keep trim_last ends_clean starts_clean
trim_last_lem ch [] ok rest ends = ground (arith, ok)
trim_last_lem ch (c ∷ out) ok rest ends = ground (arith, ok, rest, ends)

trim_end_lem :
    (out : List ℕ) (ok : all_keep out ≡ true)
    → (all_keep (trim_end out) ≡ true) × (ends_clean (trim_end out) ≡ true)
unfolding all_keep trim_end ends_clean
trim_end_lem [] ok = (refl, refl)
trim_end_lem (ch ∷ out) ok =
    let split : (keep ch ≡ true) × (all_keep out ≡ true) = ground arith in
    let rest = trim_end_lem out split.1 in
    let last = trim_last_lem ch (trim_end out) split.0 rest.0 rest.1 in (last.0, last.1)

trim_end_start :
    (out : List ℕ) (ok : all_keep out ≡ true) (start : starts_clean out ≡ true)
    → starts_clean (trim_end out) ≡ true
unfolding all_keep trim_end starts_clean
trim_end_start [] ok start = refl
trim_end_start (ch ∷ out) ok start =
    let split : (keep ch ≡ true) × (all_keep out ≡ true) = ground arith in
    let rest = trim_end_lem out split.1 in
    (trim_last_lem ch (trim_end out) split.0 rest.0 rest.1).2 start

trim_start_clean : (out : List ℕ) (start : starts_clean out ≡ true) → trim_start out ≡ out
unfolding trim_start starts_clean
trim_start_clean [] start = refl
trim_start_clean (ch ∷ out) start = ground (arith, start)

trim_end_clean : (out : List ℕ) (ends : ends_clean out ≡ true) → trim_end out ≡ out
unfolding trim_end trim_last ends_clean
trim_end_clean [] ends = refl
trim_end_clean (ch ∷ []) ends = ground (arith, ends)
trim_end_clean (ch ∷ c ∷ out) ends = rw (trim_end_clean (c ∷ out) ends) refl

-- A component that may stand in a symbol: not empty, of letters, digits and `_`, with a letter or a
-- digit at each end.
unfoldable pub is_component : List ℕ → Bool
unfolding all_keep starts_clean ends_clean
is_component out = not (length out == 0) && (all_keep out && (starts_clean out && ends_clean out))

or_ty_lem :
    (out : List ℕ) (ok : all_keep out ≡ true) (start : starts_clean out ≡ true)
    (ends : ends_clean out ≡ true)
    → is_component (or_ty out) ≡ true
unfolding is_component or_ty keep is_ascii_alphanumeric
or_ty_lem [] ok start ends = refl
or_ty_lem (ch ∷ out) ok start ends = ground (arith, ok, start, ends)

or_ty_clean : (out : List ℕ) (ok : is_component out ≡ true) → or_ty out ≡ out
unfolding is_component or_ty
or_ty_clean [] ok = ground (arith, ok)
or_ty_clean (ch ∷ out) ok = refl

-- Whatever the input, the result is a component.
pub sanitize_symbol_component-is_component :
    (input : List ℕ) → is_component (sanitize_symbol_component input) ≡ true
unfolding sanitize_symbol_component
sanitize_symbol_component-is_component input =
    let kept = all_keep-sanitize_loop false input in
    let start = trim_start_lem (sanitize_loop false input) kept in
    let ends = trim_end_lem (trim_start (sanitize_loop false input)) start.0 in
    or_ty_lem _ ends.0 (trim_end_start (trim_start (sanitize_loop false input)) start.0 start.1)
      ends.1

-- A component is left as it is, so that sanitizing twice is sanitizing once.
pub sanitize_symbol_component_fixed :
    (out : List ℕ) (ok : is_component out ≡ true) → sanitize_symbol_component out ≡ out
unfolding sanitize_symbol_component is_component
sanitize_symbol_component_fixed out ok =
    let split : (all_keep out ≡ true) × (starts_clean out ≡ true) × (ends_clean out ≡ true) =
      ground arith in
    rw (sanitize_loop_kept false out split.0)
      (rw (trim_start_clean out split.1) (rw (trim_end_clean out split.2) (or_ty_clean out ok)))
