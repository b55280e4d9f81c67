-- ===== src/Primitive.antt =====
-- The scalar carriers of src/primitive.rs and src/cmp.rs, and the conversions that
-- `fieldless_enum_derive!` generates for `bool`, `char` and `Ordering`.
pub mod Laws
use Prim.Native.Char.{Char, char, code, IsScalar}
use native.Mathlib.Decide.{dec_lt}
use co.Prelude.{
  ℕ, zero, suc, ◌<◌, ◌≡◌, ℤ, pos, negsuc, Bool, true, false, ◌&&◌, ◌||◌, Option, none, some,
  map_some, is_some, arith, ◌==◌, leb, if◌then◌else◌, Result, ok, err,
}
use co.Conv.{Conv, Niche}

-- `struct CBool(pub u8)`: any byte.
pub record CBool : Type 0 where
  pub byte : ℕ

-- `struct UnicodeChar(pub u32)`: any 32-bit number.
pub record UnicodeChar : Type 0 where
  pub raw : ℕ

-- `struct COrdering(pub i8)`: any signed byte.
pub record COrdering : Type 0 where
  pub value : ℤ

-- `core::cmp::Ordering`.
pub data Ordering : Type 0 where
  less equal greater : Ordering

abbrev pub ordering_less : COrdering
ordering_less = record { value = negsuc 0 }

abbrev pub ordering_equal : COrdering
ordering_equal = record { value = pos 0 }

abbrev pub ordering_greater : COrdering
ordering_greater = record { value = pos 1 }

abbrev pub c_false : CBool
c_false = record { byte = 0 }

abbrev pub c_true : CBool
c_true = record { byte = 1 }

-- `bool::try_from(u8)` of the standard library, and `TryFrom<CBool> for bool`.
unfoldable pub bool_try_from : CBool → Option Bool
bool_try_from c = if c.byte == 0 then some false else if c.byte == 1 then some true else none

-- `From<bool> for CBool`.
unfoldable pub c_bool_from : Bool → CBool
c_bool_from false = record { byte = 0 }
c_bool_from true = record { byte = 1 }

-- `PartialEq for CBool`.
unfoldable pub c_bool_eq : CBool → CBool → Bool
c_bool_eq a b = leb a.byte 1 && a.byte == b.byte

pub IsScalar-below : (n : ℕ) → n < 0xd800 → IsScalar n
IsScalar-below n h = ground arith

pub IsScalar-above : (n : ℕ) → 0xdfff < n → n < 0x11_0000 → IsScalar n
IsScalar-above n h k = ground arith

pub scalar_of : (n : ℕ) → Dec (n < 0xd800) → Dec (0xdfff < n) → Dec (n < 0x11_0000) → Option Char
scalar_of n (yes low) _ _ = some (char n (IsScalar-below n low))
scalar_of n (no _) (yes high) (yes bounded) = some (char n (IsScalar-above n high bounded))
scalar_of n (no _) _ _ = none

-- `char::try_from(u32)` of the standard library: the scalar values, without the surrogates.
unfoldable pub char_from_u32 : ℕ → Option Char
unfolding scalar_of dec_lt
char_from_u32 n = scalar_of n (dec_lt n 0xd800) (dec_lt 0xdfff n) (dec_lt n 0x11_0000)

-- `TryFrom<UnicodeChar> for char`.
unfoldable pub char_try_from : UnicodeChar → Option Char
char_try_from c = char_from_u32 c.raw

-- `From<char> for UnicodeChar`.
unfoldable pub unicode_char_from : Char → UnicodeChar
unicode_char_from c = record { raw = code c }

-- `PartialEq for UnicodeChar`.
unfoldable pub unicode_char_eq : UnicodeChar → UnicodeChar → Bool
unicode_char_eq a b = is_some (char_from_u32 a.raw) && a.raw == b.raw

ordering_of : COrdering → ℤ → Result Ordering COrdering
ordering_of c (negsuc zero) = ok less
ordering_of c (pos zero) = ok equal
ordering_of c (pos (suc zero)) = ok greater
ordering_of c _ = err c

-- `TryFrom<COrdering> for Ordering`: the error is the carrier itself.
unfoldable pub ordering_try_from : COrdering → Result Ordering COrdering
unfolding ordering_of
ordering_try_from c = ordering_of c c.value

-- `From<Ordering> for COrdering`: `value as i8`.
unfoldable pub c_ordering_from : Ordering → COrdering
c_ordering_from less = ordering_less
c_ordering_from equal = ordering_equal
c_ordering_from greater = ordering_greater

abbrev int_eq : ℤ → ℤ → Bool
int_eq (pos a) (pos b) = a == b
int_eq (negsuc a) (negsuc b) = a == b
int_eq _ _ = false

abbrev is_ordering : ℤ → Bool
is_ordering (negsuc n) = n == 0
is_ordering (pos n) = leb n 1

-- `PartialEq for COrdering`: a carrier out of -1..=1 equals nothing.
unfoldable pub c_ordering_eq : COrdering → COrdering → Bool
c_ordering_eq a b = is_ordering a.value && int_eq a.value b.value

-- `Result::ok` and `Result::is_ok`.
abbrev pub result_ok {ℓ κ} : {T : Type ℓ} {E : Type κ} → Result T E → Option T
result_ok (ok t) = some t
result_ok (err e) = none

-- The impls of `fieldless_enum_derive!`: no store is used, and the carrier decodes to itself first.
unfoldable pub fieldless_enum_derive {ℓ κ} :
    {T : Type ℓ} {C : Type κ}
    → (C → Bool)
    → (C → Option T)
    → (T → C)
    → Conv T C (Unit {0}) (Unit {0})
fieldless_enum_derive validity_fn decode_fn encode_fn = record {
  encode_default = tt;
  soft_encode = λ t s. (encode_fn t, s);
  decode_default = tt;
  soft_decode = λ c s. (decode_fn c, s);
  is_valid = validity_fn;
}

-- The `decode_fn` of `bool`.
unfoldable pub bool_decode_fn : CBool → Option Bool
bool_decode_fn c = if c.byte == 0 then some false else if c.byte == 1 then some true else none

-- `fieldless_enum_derive! { bool => CBool: … }`.
unfoldable pub bool_conv : Conv Bool CBool (Unit {0}) (Unit {0})
unfolding fieldless_enum_derive c_bool_from bool_decode_fn
bool_conv = fieldless_enum_derive (λ c. c.byte == 0 || c.byte == 1) bool_decode_fn c_bool_from

unfoldable pub bool_niche : Niche CBool
bool_niche = record { niche = record { byte = 2 }; is_niche = λ c. c.byte == 2 }

-- `fieldless_enum_derive! { char => UnicodeChar: … }`.
unfoldable pub char_conv : Conv Char UnicodeChar (Unit {0}) (Unit {0})
unfolding fieldless_enum_derive char_try_from unicode_char_from
char_conv = fieldless_enum_derive (λ c. is_some (char_try_from c)) char_try_from unicode_char_from

unfoldable pub char_niche : Niche UnicodeChar
char_niche = record { niche = record { raw = 0x11_0000 }; is_niche = λ c. c.raw == 0x11_0000 }

-- `fieldless_enum_derive! { Ordering => COrdering: … }`.
unfoldable pub ordering_conv : Conv Ordering COrdering (Unit {0}) (Unit {0})
unfolding fieldless_enum_derive ordering_try_from c_ordering_from
ordering_conv =
    fieldless_enum_derive (λ c. is_some (result_ok (ordering_try_from c)))
      (λ c. result_ok (ordering_try_from c)) c_ordering_from

unfoldable pub ordering_niche : Niche COrdering
ordering_niche = record {
  niche = record { value = negsuc 1 };
  is_niche = λ c. int_eq c.value (negsuc 1);
}
