-- ===== src/Primitive/Laws.antt =====
-- The scalar conversions of src/primitive.rs and src/cmp.rs meet the conversion contract.
use Prim.Native.Char.{Char, char, code, IsScalar}
use text.Mathlib.TextEquality.{IsScalar-prop}
use co.Prelude.{ℕ, ◌<◌, ◌≡◌, refl, ◌↔◌, ◌⊎◌, true, false, some, arith, ap, ◌==◌}
use co.Conv.{IsConv, IsNiche}
use co.Primitive.{
  CBool, UnicodeChar, COrdering, bool_conv, bool_niche, char_conv, char_niche, ordering_conv,
  ordering_niche, char_from_u32, scalar_of, IsScalar-below, IsScalar-above, c_bool_eq,
  c_ordering_eq, unicode_char_eq,
}

-- A scalar value lies below the surrogates or above them, and below the end of the range.
scalar_bounds : (n : ℕ) → IsScalar n → (n < 0xd800) ⊎ ((0xdfff < n) × (n < 0x11_0000))
scalar_bounds n p = ground arith

code-ne-limit : (c : Char) → (code c == 0x11_0000) ≡ false
code-ne-limit (char n p) = ground (arith, scalar_bounds n p)

scalar_of-IsScalar :
    (n : ℕ) (p : IsScalar n) (l : Dec (n < 0xd800)) (h : Dec (0xdfff < n)) (b : Dec (n < 0x11_0000))
    → scalar_of n l h b ≡ some (char n p)
unfolding scalar_of
scalar_of-IsScalar n p (yes l) h b =
    ap (λ q. some (char n q)) (IsScalar-prop n (IsScalar-below n l) p)
scalar_of-IsScalar n p (no l) (yes h) (yes b) =
    ap (λ q. some (char n q)) (IsScalar-prop n (IsScalar-above n h b) p)
scalar_of-IsScalar n p (no l) (yes h) (no b) = absurd (omega (arith, scalar_bounds n p))
scalar_of-IsScalar n p (no l) (no h) b = absurd (omega (arith, scalar_bounds n p))

-- Every character is decoded from its own number.
pub char_from_u32-code : (c : Char) → char_from_u32 (code c) ≡ some c
unfolding char_from_u32
char_from_u32-code (char n p) = scalar_of-IsScalar n p _ _ _

-- `bool` decodes from its carrier and from no other byte.
pub bool-IsConv : IsConv bool_conv
unfolding bool_conv
bool-IsConv = record { decode_encode = λ t e d. ground arith; decode_valid = λ c d. ground arith }

pub bool-IsNiche : IsNiche bool_conv bool_niche
unfolding bool_conv bool_niche
bool-IsNiche = record { niche_found = refl; encode_ne_niche = λ t e. ground arith }

-- `char` decodes from the number of each scalar value, and from no other carrier.
pub char-IsConv : IsConv char_conv
unfolding char_conv
char-IsConv = record { decode_encode = λ t e d. char_from_u32-code t; decode_valid = λ c d. refl }

pub char-IsNiche : IsNiche char_conv char_niche
unfolding char_conv char_niche
char-IsNiche = record { niche_found = refl; encode_ne_niche = λ t e. code-ne-limit t }

pub ordering-IsConv : IsConv ordering_conv
unfolding ordering_conv
ordering-IsConv = record { decode_encode = λ t e d. ground arith; decode_valid = λ c d. refl }

pub ordering-IsNiche : IsNiche ordering_conv ordering_niche
unfolding ordering_conv ordering_niche
ordering-IsNiche = record { niche_found = refl; encode_ne_niche = λ t e. ground arith }

-- A scalar carrier equals exactly the valid carriers with its own contents: a reserved carrier
-- equals nothing, itself included.
pub carrier_eq_iff :
    ((a b : CBool) → (c_bool_eq a b ≡ true) ↔ ((bool_conv.is_valid a ≡ true) × (a ≡ b)))
    × ((a b : UnicodeChar)
        → (unicode_char_eq a b ≡ true) ↔ ((char_conv.is_valid a ≡ true) × (a ≡ b)))
    × ((a b : COrdering)
        → (c_ordering_eq a b ≡ true) ↔ ((ordering_conv.is_valid a ≡ true) × (a ≡ b)))
unfolding c_bool_eq unicode_char_eq c_ordering_eq bool_conv char_conv ordering_conv
carrier_eq_iff = (λ a b. ground arith, λ a b. ground arith, λ a b. ground arith)
