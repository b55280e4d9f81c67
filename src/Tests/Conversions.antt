-- ===== src/Tests/Conversions.antt =====
-- The conversions at concrete types and values.
use co.Prelude.{
  ℕ, suc, Bool, true, false, Option, none, some, Result, ok, err, ◌≡◌, ◌↔◌, refl, arith, ◌==◌, ltb,
  if◌then◌else◌,
}
use co.Conv.{IsConv}
use co.Primitive.{CBool, bool_conv, bool_niche, Ordering, less, equal, greater}
use co.Primitive.Laws.{bool-IsConv, bool-IsNiche}
use co.COption.{COption, stable_option_conv, niche_option_conv}
use co.COption.Laws.{niche_option-IsConv}
use co.CResult.{
  CResult, c_ok, c_err, c_result_eq, c_result_cmp, stable_result_conv, result_ok_conv,
  result_err_conv, result_ok_encode, result_ok_encode_unchecked,
}
use co.CResult.Order.{IsPartialOrd, c_result_cmp-IsPartialOrd}
use co.CResult.StaleStore.{result_ok_encode_stale}
use co.Compound.{pair_conv, array_conv}
use co.Compound.Laws.{array-IsConv}
use co.Unchecked.{
  Decoder, unchecked_stable_option, unchecked_niche_option, unchecked_stable_result,
  unchecked_result_ok, unchecked_result_err, unchecked_pair, unchecked_array,
}
use co.Unchecked.Laws.{Agrees, unchecked-Agrees}
use co.Store.{Store, option_store}

abbrev zero_byte : CBool
zero_byte = record { byte = 0 }

niche_option-IsConv_example : IsConv (niche_option_conv bool_conv bool_niche)
niche_option-IsConv_example = niche_option-IsConv bool_conv bool_niche bool-IsConv bool-IsNiche

unit_lem : (u : Unit {0}) → ◌≡◌ {A = Unit {0}} tt u
unit_lem u = refl

array-IsConv_example : IsConv (array_conv bool_conv 3)
array-IsConv_example = array-IsConv bool_conv bool-IsConv 3

-- `false < true`, on the values and on the carriers.
abbrev bool_cmp : Bool → Bool → Option Ordering
bool_cmp false true = some less
bool_cmp true false = some greater
bool_cmp _ _ = some equal

abbrev byte_cmp : CBool → CBool → Option Ordering
byte_cmp a b =
    if ltb a.byte b.byte then some less else (if a.byte == b.byte then some equal else some greater)

byte_cmp-encode :
    (a b : Bool) (e e' : Unit {0})
    → byte_cmp (bool_conv.soft_encode a e).0 (bool_conv.soft_encode b e').0 ≡ bool_cmp a b
unfolding bool_conv
byte_cmp-encode false false e e' = refl
byte_cmp-encode false true e e' = refl
byte_cmp-encode true false e e' = refl
byte_cmp-encode true true e e' = refl

byte_eq_iff_cmp : (a b : CBool) → ((a.byte == b.byte) ≡ true) ↔ (byte_cmp a b ≡ some equal)
byte_eq_iff_cmp a b = ground arith

abbrev byte_eq : CBool → CBool → Bool
byte_eq a b = a.byte == b.byte

abbrev some_byte : COption CBool
some_byte = record { tag = 1; payload = record { byte = 1 } }

byte_less_iff_cmp : (a b : CBool) → (byte_cmp a b ≡ some less) ↔ (byte_cmp b a ≡ some greater)
byte_less_iff_cmp a b = ground arith

byte_trans :
    (o : Ordering) (a b c : CBool) (ab : byte_cmp a b ≡ some o) (bc : byte_cmp b c ≡ some o)
    → byte_cmp a c ≡ some o
byte_trans less a b c ab bc = ground (arith, ab, bc)
byte_trans equal a b c ab bc = ground (arith, ab, bc)
byte_trans greater a b c ab bc = ground (arith, ab, bc)

byte-IsPartialOrd : IsPartialOrd (λ a b. byte_eq a b ≡ true) byte_cmp
byte-IsPartialOrd = record {
  equal_iff = byte_eq_iff_cmp;
  less_iff = byte_less_iff_cmp;
  trans = byte_trans;
}

c_result_cmp-IsPartialOrd_example :
    IsPartialOrd
      (λ (a b : CResult CBool CBool). c_result_eq byte_eq byte_eq a b ≡ some true)
      (c_result_cmp byte_cmp byte_cmp)
c_result_cmp-IsPartialOrd_example =
    c_result_cmp-IsPartialOrd byte_eq byte_eq byte_cmp byte_cmp byte-IsPartialOrd byte-IsPartialOrd

-- An `Ok` compares as above an `Err`.
ok_above_err :
    c_result_cmp byte_cmp byte_cmp
      (c_ok {D = CBool} (record { byte = 0 }))
      (c_err (record { byte = 1 }))
    ≡ some greater
unfolding c_result_cmp c_ok c_err
ok_above_err = refl

-- A store that is a number, and adds itself to the memory when it is synced.
abbrev counting : Store ℕ (Unit {0})
counting = record { default = tt; sync = λ s w. (some tt, suc w); drop = λ s w. w }

result_ok_encode_stale_example :
    let first = (result_ok_encode {F = Unit {0}} bool_conv bool_niche tt (ok true) none).1 in
    let failed : Result Bool (Unit {0}) = err tt in
    let second = (result_ok_encode bool_conv bool_niche tt failed first).1 in
    let unchecked = (result_ok_encode_unchecked bool_conv bool_niche tt failed first).1 in
    ((option_store counting).sync second 5 ≡ (some tt, 6))
    × ((option_store counting).sync unchecked 5 ≡ (some tt, 5))
result_ok_encode_stale_example =
    result_ok_encode_stale counting bool_conv bool_niche tt true tt none 5

-- `bool::try_from(source).unwrap_unchecked()`.
abbrev bool_unchecked : Decoder Bool CBool (Unit {0})
bool_unchecked c d = bool_conv.soft_decode c d

bool-Agrees : Agrees bool_conv bool_unchecked
unfolding Agrees
bool-Agrees c d valid = refl

unchecked-Agrees_example :
    Agrees
      (stable_option_conv bool_conv zero_byte)
      (unchecked_stable_option bool_unchecked bool_conv.decode_default)
    × Agrees
        (niche_option_conv bool_conv bool_niche)
        (unchecked_niche_option bool_unchecked bool_conv.decode_default bool_niche)
    × Agrees (stable_result_conv bool_conv bool_conv) (
        unchecked_stable_result bool_unchecked bool_conv.decode_default bool_unchecked
          bool_conv.decode_default)
    × Agrees
        (result_ok_conv bool_conv bool_niche false)
        (unchecked_result_ok bool_unchecked bool_conv.decode_default bool_niche false)
    × Agrees
        (result_err_conv bool_conv bool_niche false)
        (unchecked_result_err bool_unchecked bool_conv.decode_default bool_niche false)
    × Agrees (pair_conv bool_conv bool_conv) (
        unchecked_pair bool_unchecked bool_conv.decode_default bool_unchecked
          bool_conv.decode_default)
    × Agrees (array_conv bool_conv 3) (unchecked_array bool_unchecked)
unchecked-Agrees_example =
    unchecked-Agrees bool_conv bool_conv bool_unchecked bool_unchecked bool-Agrees bool-Agrees
      bool-IsConv zero_byte bool_niche false 3
