-- ===== src/Tests/Calls.antt =====
-- Calls of C functions, at concrete inputs.
use co.Prelude.{
  ℕ, suc, ◌+◌, Bool, false, not, Option, none, some, is_some, if◌then◌else◌, leb, ◌==◌, List, [],
  ◌∷◌, ◌≡◌, refl,
}
use co.Store.{Store, drop_option, then_some}
use co.Sync.MutEncode.{MutRef, mut_encode, mut_encode_store, mut_encode_sync}
use co.Sync.MutEncode.Laws.{IsExclusive}
use co.Ops.{Argument, Carriers, Stores, default_stores, encode_args, soft_call}
use co.Ops.Laws.{IsSynced, all_ok, soft_call_lem, IsEmptyStore}
use co.Ops.Borrowed.{mut_argument, pending, soft_call_borrowed}

-- A store that logs that it was synced, and fails for 0.
abbrev logged : Store (List ℕ) ℕ
logged = record { default = 0; sync = λ s w. (then_some (not (s == 0)), s ∷ w); drop = λ s w. w }

abbrev argument : ℕ → Argument (List ℕ)
argument n = record { Carrier = ℕ; Stored = ℕ; store = logged; soft_encode = λ s w. (n, (n, w)) }

abbrev arguments : List (Argument (List ℕ))
arguments = argument 2 ∷ argument 0 ∷ argument 5 ∷ []

abbrev add : Carriers arguments → Stores arguments → List ℕ → ℕ × (Stores arguments × List ℕ)
add (a, (b, (c, _))) stores w = (a + b + c, (stores, w))

abbrev decode_value : ℕ → List ℕ → Option ℕ × List ℕ
decode_value u w = (some u, w)

abbrev drop_value : ℕ → List ℕ → List ℕ
drop_value b w = 9 ∷ w

soft_call_lem_example :
    (oks : List Bool) × (w3 : List ℕ) × IsSynced arguments (2, (0, (5, tt))) [] oks w3
    × (soft_call arguments decode_value drop_value add []
        ≡ (if all_ok oks then (some 7, w3) else (none, drop_option drop_value (some 7) w3)))
unfolding encode_args default_stores
soft_call_lem_example = soft_call_lem arguments decode_value drop_value add []

-- The store that fails does not keep the last one from being synced.
failed_call : soft_call arguments decode_value drop_value add [] ≡ (none, 9 ∷ 5 ∷ 0 ∷ 2 ∷ [])
unfolding soft_call
failed_call = refl

abbrev plain : ℕ → Argument (List ℕ)
plain n = record {
  Carrier = ℕ;
  Stored = Unit {0};
  store = record { default = tt; sync = λ s w. (some tt, w); drop = λ s w. w };
  soft_encode = λ s w. (n, (s, w));
}

plain-IsEmptyStore : (n : ℕ) → IsEmptyStore (plain n)
plain-IsEmptyStore n = record { sync_empty = λ s w. refl; drop_empty = λ s w. refl }

abbrev plain_arguments : List (Argument (List ℕ))
plain_arguments = plain 3 ∷ plain 4 ∷ []

abbrev add_plain : Carriers plain_arguments → List ℕ → ℕ × List ℕ
add_plain (a, (b, _)) w = (a + b, 1 ∷ w)

-- One borrowed number; a carrier decodes to its successor if it is below 10.
abbrev no_fields : Store ℕ (Unit {0})
no_fields = record { default = tt; sync = λ s w. (some tt, w); drop = λ s w. w }

abbrev number_ref : MutRef ℕ ℕ ℕ (Unit {0})
number_ref = record {
  decode_move = λ c w. (if leb c 9 then some (suc c) else none, w);
  drop_value = λ v w. w;
  assign = λ p v w. (some tt, v);
}

abbrev read : Unit {0} → ℕ → ℕ
read p w = w

number-IsExclusive : IsExclusive no_fields number_ref read
number-IsExclusive = record {
  decode_frame = λ p c w. refl;
  sync_frame = λ p s w. refl;
  store_frame = λ p s w. refl;
  drop_frame = λ p v w. refl;
  assign_read = λ p v w. refl;
}

abbrev build : Unit {0} → Unit {0} → ℕ → ℕ × (Unit {0} × ℕ)
build p s w = (w, (s, w))

abbrev borrowed : List (Argument ℕ)
borrowed = mut_argument no_fields number_ref tt build ∷ []

-- The function leaves the carrier 6 and answers 0, which does not decode.
abbrev leave_six : Carriers borrowed → Stores borrowed → ℕ → ℕ × (Stores borrowed × ℕ)
leave_six cs stores w = (0, ((pending no_fields number_ref 6 tt tt, tt), w))

abbrev decode_positive : ℕ → ℕ → Option ℕ × ℕ
decode_positive u w = (if u == 0 then none else some u, w)

soft_call_borrowed_example :
    let (answer, w') = soft_call borrowed decode_positive (λ b w. w) leave_six 3 in
    (is_some answer ≡ false) × (read tt w' ≡ 7)
unfolding mut_encode_sync encode_args default_stores mut_encode mut_encode_store
soft_call_borrowed_example =
    soft_call_borrowed no_fields number_ref decode_positive (λ b w. w) read number-IsExclusive
      (λ p u w. refl) (λ p b w. refl) tt build leave_six 3 3 0 6 tt refl
