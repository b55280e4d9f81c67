-- ===== src/Tests/References.antt =====
-- References to composite values, at concrete inputs.
use co.Prelude.{
  ℕ, zero, suc, ◌-◌, Bool, true, false, Result, ok, err, Option, none, some, is_some, ◌==◌,
  if◌then◌else◌, ◌≡◌, refl, arith,
}
use co.Conv.{Niche}
use co.Store.{Store, unit_store, option_store, option_result_store}
use co.Sync.MutDecode.{mut_decode_default, mut_decode_sync}
use co.Sync.MutDecode.Laws.{IsExclusive, put_value}
use co.CResult.{CResult}
use co.MutRefs.{MutConv, result_mut, decode_mut}
use co.MutRefs.Laws.{IsMutConv, result_mut-IsMutConv}
use co.MutRefs.Edit.{decode_mut_edit}
use co.Sync.Shared.{RefSized}
use co.COption.{COptionSome}
use co.Refs.{RefConv, niche_option_refs, encode_ref, decode_ref}
use co.Refs.Laws.{IsRefConv, IntactNiche, niche_option_refs-IsRefConv}
use co.Refs.Whole.{decode_ref-encode_ref}

abbrev no_store : Store ℕ (Unit {0})
no_store = record { default = tt; sync = λ s w. (some tt, w); drop = λ s w. suc w }

-- A number is carried by its successor, so that 0 is free; every conversion counts in the memory.
abbrev number_refs : RefConv ℕ ℕ ℕ (Unit {0}) (Unit {0})
number_refs = record {
  encode_store = no_store;
  encode_ref_field = λ t e w. (suc t, (e, suc w));
  decode_store = no_store;
  decode_ref_field = λ c d w. (if c == 0 then none else some (c - 1), (d, w));
}

abbrev Intact : ℕ → ℕ → ℕ → Type 0
Intact t c w = c ≡ suc t

zero_free : (t c w : ℕ) (whole : Intact t c w) → (c == 0) ≡ false
zero_free t c w whole = ground arith

read_back : (t c : ℕ) (whole : c ≡ suc t) → (if c == 0 then none else some (c - 1)) ≡ some t
read_back t c whole = ground arith

number-IsRefConv : IsRefConv number_refs Intact
number-IsRefConv = record {
  encode_intact = λ t e w. refl;
  decode_intact = λ t c d w whole. read_back t c whole;
  drop_intact = λ t c d w whole. whole;
}

abbrev zero_niche : Niche ℕ
zero_niche = record { niche = 0; is_niche = λ c. c == 0 }

Intact-frame :
    (t : Option ℕ) (c : COptionSome ℕ) (r : Option ℕ) (w : ℕ)
    (whole : IntactNiche Intact zero_niche t c.carrier w)
    → IntactNiche Intact zero_niche t c.carrier (suc w)
Intact-frame none c r w whole = whole
Intact-frame (some t) c r w whole = whole

abbrev option_conv : RefConv ℕ (Option ℕ) (COptionSome ℕ) (Option (Unit {0})) (Option (Unit {0}))
option_conv = niche_option_refs number_refs zero_niche

abbrev used : RefSized (COptionSome ℕ) (Option (Unit {0}))
used = record { value = some (record { carrier = 3 }); store = some tt }

abbrev unused : RefSized (Option ℕ) (Option (Unit {0}))
unused = record { value = none; store = none }

decode_ref-encode_ref_example :
    let (kept, w1) = encode_ref option_conv (some 7) used 0 in
    let (answer, (decoded, w2)) = decode_ref option_conv (λ r w. suc w) kept.value unused w1 in
    (is_some kept.value ≡ true) × (answer ≡ some tt) × (decoded.value ≡ some (some 7))
decode_ref-encode_ref_example =
    decode_ref-encode_ref option_conv (λ t c w. IntactNiche Intact zero_niche t c.carrier w)
      (niche_option_refs-IsRefConv number_refs Intact number-IsRefConv zero_niche refl zero_free)
      (λ r w. suc w) Intact-frame (some 7) used unused 0

-- A `Result<bool, u8>` in a single cell, whose fields need no store.
abbrev Cell : Type 0
Cell = CResult ℕ ℕ

abbrev bool_of : ℕ → Option Bool
bool_of zero = some false
bool_of (suc zero) = some true
bool_of _ = none

abbrev byte_of_bool : Bool → ℕ
byte_of_bool false = 0
byte_of_bool true = 1

abbrev bool_mut : MutConv Cell Bool ℕ (Unit {0})
bool_mut = record {
  encode_move = byte_of_bool;
  decode_store = unit_store;
  decode_fields = λ c s w. (bool_of c, (s, w));
}

abbrev byte_mut : MutConv Cell ℕ ℕ (Unit {0})
byte_mut = record {
  encode_move = λ n. n;
  decode_store = unit_store;
  decode_fields = λ c s w. (some c, (s, w));
}

abbrev read_cell : Unit {0} → Cell → Cell
read_cell p w = w

bool_back : (b : Bool) → bool_of (byte_of_bool b) ≡ some b
bool_back false = refl
bool_back true = refl

bool_mut-IsMutConv : IsMutConv (read_cell tt) bool_mut
unfolding unit_store
bool_mut-IsMutConv = record {
  decode_encode = λ b s w. bool_back b;
  decode_frame = λ c s w. refl;
  drop_frame = λ s w. refl;
}

byte_mut-IsMutConv : IsMutConv (read_cell tt) byte_mut
unfolding unit_store
byte_mut-IsMutConv = record {
  decode_encode = λ n s w. refl;
  decode_frame = λ c s w. refl;
  drop_frame = λ s w. refl;
}

abbrev cell_mut : MutConv Cell (Result Bool ℕ) Cell (Option (Result (Unit {0}) (Unit {0})))
cell_mut = result_mut bool_mut byte_mut

abbrev drop_result : Result Bool ℕ → Cell → Cell
drop_result r w = w

abbrev write_cell : Unit {0} → Cell → Cell → Cell
write_cell p c w = c

cell_sync :
    (s : Option (Result (Unit {0}) (Unit {0}))) (w : Cell) → (cell_mut.decode_store.sync s w).1 ≡ w
unfolding result_mut option_result_store option_store unit_store
cell_sync none w = refl
cell_sync (some (ok s)) w = refl
cell_sync (some (err s)) w = refl

cell_drop :
    (s : Option (Result (Unit {0}) (Unit {0}))) (w : Cell) → cell_mut.decode_store.drop s w ≡ w
unfolding result_mut option_result_store option_store unit_store
cell_drop none w = refl
cell_drop (some (ok s)) w = refl
cell_drop (some (err s)) w = refl

cell-IsExclusive :
    IsExclusive {P = Unit {0}} cell_mut.decode_store drop_result
      (λ r w. (cell_mut.encode_move r, w))
      write_cell
      read_cell
cell-IsExclusive = record {
  write_read = λ p c w. refl;
  sync_frame = λ p s w. cell_sync s w;
  store_frame = λ p s w. cell_drop s w;
  drop_frame = λ p r w. refl;
}

decode_mut_edit_example :
    let idle = mut_decode_default cell_mut.decode_store drop_result in
    let (decoded, (self, w')) =
      decode_mut cell_mut drop_result write_cell read_cell
        (some tt)
        idle
        (cell_mut.encode_move (ok true)) in
    let (synced, w1) = cell_mut.decode_store.sync self.store w' in
    let (result, w2) =
      mut_decode_sync cell_mut.decode_store drop_result
        (put_value cell_mut.decode_store drop_result (err 7) self)
        w' in
    (decoded ≡ some tt)
    × (self.value ≡ some (ok true))
    × (result ≡ synced)
    × (w2
        ≡ (if is_some synced then cell_mut.encode_move (err 7) else cell_mut.encode_move (ok true)))
decode_mut_edit_example =
    decode_mut_edit cell_mut drop_result write_cell read_cell tt (ok true) (err 7)
      (cell_mut.encode_move (ok true))
      (result_mut-IsMutConv (read_cell tt) bool_mut byte_mut bool_mut-IsMutConv byte_mut-IsMutConv)
      cell-IsExclusive refl
