-- ===== src/Tests/Sync.antt =====
-- The write-back stores at concrete inputs: a memory of two cells, carriers that are numbers, and a
-- field store that fails if it holds 0.
use co.Prelude.{
  ℕ, suc, ◌+◌, Bool, true, false, not, Option, none, some, is_some, List, [], ◌∷◌, ◌≡◌, ◌≢◌, ◌↔◌,
  refl, arith, ◌==◌, leb, if◌then◌else◌,
}
use co.Store.{Store, then_some, slice_sync}
use co.Store.Laws.{slice_sync-each, each_succeeds, sync_each}
use co.Sync.MutEncode.{
  MutRef, MutEncode, mut_encode, mut_encode_sync, mut_encode_cancel, mut_encode_default,
}
use co.Sync.MutEncode.Laws.{mut_encode_sync_transaction, mut_encode_reuse}
use co.Sync.MutEncode.Laws
use co.Sync.MutDecode.{
  MutDecode, DecodeWriteback, mut_decode, mut_decode_default, mut_decode_sync, mut_decode_finish,
  decode_with, decode_with_order,
}
use co.Sync.MutDecode.Laws.{
  mut_decode_transaction, mut_decode_paired, decode_with_order_reuse, decode_with_sync, put_value,
}
use co.Sync.SliceDecode.{
  WideRefMut, SliceDecode, slice_decode, slice_decode_default, slice_decode_sync,
}
use co.Sync.SliceDecode.Laws.{slice_decode_transaction, slice_decode_stale, put_slice, expected}

abbrev Cells : Type 0
Cells = ℕ × ℕ

abbrev read : Bool → Cells → ℕ
read true w = w.0
read false w = w.1

abbrev write : Bool → ℕ → Cells → Cells
write true v w = (v, w.1)
write false v w = (w.0, v)

abbrev fields : Store Cells ℕ
fields = record { default = 0; sync = λ s w. (then_some (not (s == 0)), w); drop = λ s w. w }

-- A carrier decodes to its successor if it is below 10.
abbrev decode_below : ℕ → Option ℕ
decode_below c = if leb c 9 then some (suc c) else none

abbrev cell_ref : MutRef Cells ℕ ℕ Bool
cell_ref = record {
  decode_move = λ c w. (decode_below c, w);
  drop_value = λ v w. w;
  assign = λ p v w. (some tt, write p v w);
}

read-write : (p : Bool) (v : ℕ) (w : Cells) → read p (write p v w) ≡ v
read-write true v w = refl
read-write false v w = refl

cells-IsExclusive : co.Sync.MutEncode.Laws.IsExclusive fields cell_ref read
cells-IsExclusive = record {
  decode_frame = λ p c w. refl;
  sync_frame = λ p s w. refl;
  store_frame = λ p s w. refl;
  drop_frame = λ p v w. refl;
  assign_read = λ p v w. read-write p v w;
}

mut_encode_sync_transaction_example :
    let self : MutEncode ℕ ℕ Bool = record { ctype = some 6; store = 1; original = some true } in
    let (result, w') = mut_encode_sync fields cell_ref self (3, 4) in
    (is_some result ≡ true) × (read true w' ≡ (if is_some result then 7 else 3))
mut_encode_sync_transaction_example =
    mut_encode_sync_transaction fields cell_ref read cells-IsExclusive 6 1 true (3, 4)

abbrev build_carrier : Bool → ℕ → Cells → ℕ × (ℕ × Cells)
build_carrier p s w = (read p w, (suc s, w))

mut_encode_reuse_example :
    let pending : MutEncode ℕ ℕ Bool = record { ctype = some 6; store = 1; original = some true } in
    let (idle, w') = mut_encode_cancel fields cell_ref pending (3, 4) in
    (mut_encode fields cell_ref false build_carrier pending (3, 4)
      ≡ mut_encode fields cell_ref false build_carrier (mut_encode_default fields cell_ref) w')
    × ((r : Bool) → read r w' ≡ read r (3, 4))
mut_encode_reuse_example =
    mut_encode_reuse fields cell_ref read cells-IsExclusive 6 1 true false build_carrier (3, 4)

abbrev drop_nothing : ℕ → Cells → Cells
drop_nothing v w = w

abbrev encode_double : ℕ → Cells → ℕ × Cells
encode_double v w = (v + v, w)

decode-IsExclusive : co.Sync.MutDecode.Laws.IsExclusive fields drop_nothing encode_double write read
decode-IsExclusive = record {
  write_read = read-write;
  sync_frame = λ p s w. refl;
  store_frame = λ p s w. refl;
  drop_frame = λ p v w. refl;
}

abbrev build_value : ℕ → Cells → Option ℕ × (ℕ × Cells)
build_value s w = (some w.0, (suc s, w))

mut_decode_transaction_example :
    let idle : MutDecode Cells ℕ ℕ Bool = mut_decode_default fields drop_nothing in
    let self =
      (mut_decode fields drop_nothing encode_double write
        (some true)
        build_value
        idle
        (3, 4)).1.0 in
    let (result, w2) =
      mut_decode_sync fields drop_nothing (put_value fields drop_nothing 8 self) (3, 4) in
    (result ≡ some tt) × (read true w2 ≡ 16)
mut_decode_transaction_example =
    mut_decode_transaction fields drop_nothing encode_double write read decode-IsExclusive
      build_value (3, 4) (3, 4) 3 8 true 1 refl

abbrev write_cell : ℕ → Bool → Cells → Option (Unit {0}) × Cells
write_cell v p w = (then_some (leb v 9), write p v w)

abbrev build_pair : ℕ → Cells → Option (ℕ × Bool) × (ℕ × Cells)
build_pair s w = (some (w.0, true), (suc s, w))

abbrev pending_decode : MutDecode Cells ℕ ℕ Bool
pending_decode = record {
  value = some 12;
  store = 1;
  writeback = some (record { state = true; callback = write_cell; sync_fields_first = false });
}

mut_decode_paired_example :
    let finished = (mut_decode_finish fields drop_nothing pending_decode (3, 4)).1.0 in
    (is_some finished.value ≡ is_some finished.writeback)
    × (let decoded =
          (decode_with_order fields drop_nothing build_pair write_cell true pending_decode
            (3, 4)).1.0 in
        is_some decoded.value ≡ is_some decoded.writeback)
mut_decode_paired_example =
    mut_decode_paired fields drop_nothing pending_decode (3, 4) build_pair write_cell true refl

decode_with_order_reuse_example :
    decode_with_order fields drop_nothing build_pair write_cell true pending_decode (3, 4)
    ≡ (none, (mut_decode_default fields drop_nothing, (12, 4)))
unfolding mut_decode_finish
decode_with_order_reuse_example =
    decode_with_order_reuse fields drop_nothing 12 1
      (record { state = true; callback = write_cell; sync_fields_first = false }) build_pair
      write_cell true (3, 4)

-- A memory of numbered cells.
abbrev Memory : Type 0
Memory = ℕ → ℕ

abbrev memory_fields : Store Memory ℕ
memory_fields = record { default = 0; sync = λ s w. (then_some (not (s == 0)), w); drop = λ s w. w }

abbrev write_at : ℕ → ℕ → Memory → Memory
write_at a c w b = if a == b then c else w b

abbrev read_at : ℕ → Memory → ℕ
read_at a w = w a

write_at_same : (a c : ℕ) (w : Memory) → read_at a (write_at a c w) ≡ c
write_at_same a c w = ground arith

write_at_other : (a b c : ℕ) (w : Memory) (ne : a ≢ b) → read_at b (write_at a c w) ≡ read_at b w
write_at_other a b c w ne = ground (arith, ne)

memory-IsExclusive : co.Sync.SliceDecode.Laws.IsExclusive memory_fields write_at suc read_at
memory-IsExclusive = record {
  write_read = write_at_same;
  write_frame = write_at_other;
  sync_frame = λ a s w. refl;
}

abbrev build_slice : WideRefMut → ℕ → Memory → Option (List ℕ) × (ℕ × Memory)
build_slice q s w = (some (w q.address ∷ w (suc q.address) ∷ []), (suc s, w))

abbrev fail_slice : WideRefMut → ℕ → Memory → Option (List ℕ) × (ℕ × Memory)
fail_slice q s w = (none, (s, w))

abbrev cells : Memory
cells a = a

slice_decode_transaction_example :
    let q : WideRefMut = record { address = 5; metadata = 2 } in
    let idle : SliceDecode ℕ ℕ = slice_decode_default memory_fields write_at suc in
    let self = (slice_decode memory_fields write_at suc q build_slice idle cells).1.0 in
    let (result, w2) =
      slice_decode_sync memory_fields write_at suc (put_slice (20 ∷ 30 ∷ []) self) cells in
    (is_some result ≡ true) × (read_at 6 w2 ≡ (if is_some result then 31 else 6))
unfolding expected
slice_decode_transaction_example =
    slice_decode_transaction memory_fields write_at suc read_at memory-IsExclusive build_slice
      (5 ∷ 6 ∷ []) (20 ∷ 30 ∷ []) 1 4 2 1 cells cells refl

slice_decode_stale_example :
    let q : WideRefMut = record { address = 8; metadata = 2 } in
    let used : SliceDecode ℕ ℕ = record {
      value = some (20 ∷ 30 ∷ []);
      store = 1;
      source = some (record { address = 5; metadata = 2 });
    } in
    let (decoded, (self, _)) = slice_decode memory_fields write_at suc q fail_slice used cells in
    let (result, w2) = slice_decode_sync memory_fields write_at suc self cells in
    (decoded ≡ none) × (is_some result ≡ true) × (read_at 9 w2 ≡ (if is_some result then 31 else 9))
unfolding expected
slice_decode_stale_example =
    slice_decode_stale memory_fields write_at suc read_at memory-IsExclusive fail_slice
      (20 ∷ 30 ∷ []) 1 1 (some (record { address = 5; metadata = 2 })) 7 2 1 cells cells refl

nat_eq_lem : (c d : ℕ) → (c ≡ d) ↔ ((c == d) ≡ true)
nat_eq_lem c d = ground arith

abbrev nat_eq : ℕ → ℕ → Bool
nat_eq c d = c == d

slice_sync-each_example : slice_sync fields (1 ∷ 0 ∷ 2 ∷ []) (3, 4) ≡ (
  then_some (each_succeeds fields (1 ∷ 0 ∷ 2 ∷ []) (3, 4)),
  sync_each fields (1 ∷ 0 ∷ 2 ∷ []) (3, 4),
)
slice_sync-each_example = slice_sync-each fields (1 ∷ 0 ∷ 2 ∷ []) (3, 4)
