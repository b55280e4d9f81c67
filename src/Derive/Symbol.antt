-- ===== src/Derive/Symbol.antt =====
-- `sanitize_symbol_component` of derive/src/utils.rs: a part of a linker symbol from the printed form
-- of a type. A character is its code.
pub mod Laws
use co.Prelude.{ℕ, Bool, true, false, ◌&&◌, ◌||◌, List, [], ◌∷◌, leb, ◌==◌, if◌then◌else◌}

-- The code of `_`.
abbrev pub underscore : ℕ
underscore = 95

-- `char::is_ascii_alphanumeric`.
unfoldable pub is_ascii_alphanumeric : ℕ → Bool
is_ascii_alphanumeric ch =
    (leb 48 ch && leb ch 57) || ((leb 65 ch && leb ch 90) || (leb 97 ch && leb ch 122))

-- `keep`.
unfoldable pub keep : ℕ → Bool
unfolding is_ascii_alphanumeric
keep ch = is_ascii_alphanumeric ch || (ch == underscore)

-- The loop: what is not kept becomes `_`, unless a `_` stands in front of it.
unfoldable pub sanitize_loop : Bool → List ℕ → List ℕ
unfolding keep
sanitize_loop prev_is_us [] = []
sanitize_loop prev_is_us (ch ∷ input) =
    let kept = sanitize_loop (ch == underscore) input in
    let replaced = sanitize_loop true input in
    if keep ch then ch ∷ kept else (if prev_is_us then replaced else underscore ∷ replaced)

-- `trim_start_matches('_')`.
unfoldable pub trim_start : List ℕ → List ℕ
trim_start [] = []
trim_start (ch ∷ out) = let rest = trim_start out in if ch == underscore then rest else ch ∷ out

unfoldable pub trim_last : ℕ → List ℕ → List ℕ
trim_last ch [] = if ch == underscore then [] else ch ∷ []
trim_last ch (c ∷ out) = ch ∷ c ∷ out

-- `trim_end_matches('_')`.
unfoldable pub trim_end : List ℕ → List ℕ
unfolding trim_last
trim_end [] = []
trim_end (ch ∷ out) = trim_last ch (trim_end out)

-- `ty` for an empty result.
unfoldable pub or_ty : List ℕ → List ℕ
or_ty [] = 116 ∷ 121 ∷ []
or_ty (ch ∷ out) = ch ∷ out

-- `sanitize_symbol_component`.
unfoldable pub sanitize_symbol_component : List ℕ → List ℕ
unfolding or_ty sanitize_loop trim_start trim_end
sanitize_symbol_component input = or_ty (trim_end (trim_start (sanitize_loop false input)))
