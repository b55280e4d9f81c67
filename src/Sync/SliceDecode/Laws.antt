-- ===== src/Sync/SliceDecode/Laws.antt =====
-- What the write-back of a decoded `&mut [R]` guarantees, and what it does after a failed reuse.
use co.Prelude.{
  ℕ, zero, suc, ◌+◌, ◌<◌, Option, none, some, is_some, List, [], ◌∷◌, length, ap, ◌≡◌, ◌≢◌, ◌∙◌,
  refl, arith, ◌&&◌, ◌==◌, if◌then◌else◌,
}
use co.Store.{Store}
use co.Sync.SliceDecode.{
  WideRefMut, SliceDecode, into_mut, slice_decode_default, slice_decode, slice_decode_sync,
  write_slice, after_fields, check_length, write_value, decode_slice, keep_decoded,
}

-- What the caller does through the slice that a decode returns.
unfoldable pub put_slice {ρ σ} :
    {R : Type ρ} {S : Type σ} → List R → SliceDecode R S → SliceDecode R S
put_slice vs self = record { value = some vs; store = self.store; source = self.source }

module _ {ω ρ κ σ} {W : Type ω} {R : Type ρ} {C : Type κ} {S : Type σ} (fields : Store W S)
    (write : ℕ → C → W → W) (encode_move : R → C) (read : ℕ → W → C) where
  -- The memory behaves as exclusive access makes it: a carrier is read back as written, a write
  -- changes no other element, and syncing or dropping the field stores changes none.
  pub record IsExclusive : Type (ω ⊔ κ ⊔ σ) where
    pub write_read : (a : ℕ) (c : C) (w : W) → read a (write a c w) ≡ c
    pub write_frame : (a b : ℕ) (c : C) (w : W) (ne : a ≢ b) → read b (write a c w) ≡ read b w
    pub sync_frame : (a : ℕ) (s : S) (w : W) → read a (fields.sync s w).1 ≡ read a w

  -- What element `i` of a slice is expected to be: the encoded value, or the earlier carrier.
  unfoldable pub expected : List R → C → ℕ → C
  expected [] old i = old
  expected (v ∷ vs) old zero = encode_move v
  expected (v ∷ vs) old (suc i) = expected vs old i

  module _ (law : IsExclusive) where
    write_slice_before :
        (vs : List R) (a b : ℕ) (lt : b < a) (w : W)
        → read b (write_slice fields write encode_move a vs w) ≡ read b w
    unfolding write_slice
    write_slice_before [] a b lt w = refl
    write_slice_before (v ∷ vs) a b lt w =
        write_slice_before vs (suc a) b (omega arith) _
        ∙ law.write_frame a b (encode_move v) w (omega arith)

    write_slice_lem :
        (vs : List R) (a i : ℕ) (w : W)
        → read (a + i) (write_slice fields write encode_move a vs w)
          ≡ expected vs (read (a + i) w) i
    unfolding write_slice expected
    write_slice_lem [] a i w = refl
    write_slice_lem (v ∷ vs) a zero w =
        let e : a + 0 ≡ a = omega arith in
        rw e (write_slice_before vs (suc a) a (omega arith) _ ∙ law.write_read a (encode_move v) w)
    write_slice_lem (v ∷ vs) a (suc i) w =
        let e : a + suc i ≡ suc a + i = omega arith in
        rw e (
          write_slice_lem vs (suc a) i _
          ∙ ap (λ c. expected vs c i)
              (law.write_frame a (suc a + i) (encode_move v) w (omega arith)))

    after_fields_lem :
        (synced : Option (Unit {0})) (vs : List R) (a n : ℕ) (w : W) (i : ℕ) (old : C)
        (same : read (suc a + i) w ≡ old)
        → let q : WideRefMut = record { address = suc a; metadata = n } in
          let (result, w') = after_fields fields write encode_move synced q (some vs) w in
          (is_some result ≡ (is_some synced && (n == length vs)))
          × (read (suc a + i) w' ≡ (if is_some result then expected vs old i else old))
    unfolding after_fields check_length write_value into_mut
    after_fields_lem none vs a n w i old same = (refl, same)
    after_fields_lem (some _) vs a n w i old same =
        let e = write_slice_lem vs (suc a) i w ∙ ap (λ c. expected vs c i) same in
        ground (arith, e, same)

    -- A sync of a store with a value and a source that is not null.
    sync_pending_lem :
        (vs : List R) (s : S) (a n i : ℕ) (w : W)
        → let self : SliceDecode R S = record {
          value = some vs;
          store = s;
          source = some (record { address = suc a; metadata = n });
        } in
          let synced = (fields.sync s w).0 in
          let (result, w') = slice_decode_sync fields write encode_move self w in
          (is_some result ≡ (is_some synced && (n == length vs)))
          × (read (suc a + i) w'
              ≡ (if is_some result then expected vs (read (suc a + i) w) i else read (suc a + i) w))
    unfolding slice_decode_sync
    sync_pending_lem vs s a n i w =
        after_fields_lem (fields.sync s w).0 vs a n (fields.sync s w).1 i (read (suc a + i) w)
          (law.sync_frame (suc a + i) s w)

    -- Where no step but the writes touches the slice: one that is decoded from a pointer that is not
    -- null, whatever the caller makes of it, is written back exactly if its
    -- field stores sync and its length is still that of the source: then each element of the source is
    -- the encoding of the caller's, and otherwise each is what it was.
    pub slice_decode_transaction :
        (build : WideRefMut → S → W → Option (List R) × (S × W)) (vs vs' : List R) (s : S)
        (a n i : ℕ) (w w' : W)
        (built : build (record { address = suc a; metadata = n }) fields.default w
          ≡ (some vs, (s, w')))
        → let q : WideRefMut = record { address = suc a; metadata = n } in
          let idle = slice_decode_default fields write encode_move in
          let self = (slice_decode fields write encode_move q build idle w).1.0 in
          let (result, w2) = slice_decode_sync fields write encode_move (put_slice vs' self) w' in
          (is_some result ≡ (is_some (fields.sync s w').0 && (n == length vs')))
          × (read (suc a + i) w2 ≡ (
              if is_some result then expected vs' (read (suc a + i) w') i else read (suc a + i) w'))
    unfolding slice_decode slice_decode_default put_slice decode_slice keep_decoded into_mut
    slice_decode_transaction build vs vs' s a n i w w' built =
        rw built (sync_pending_lem vs' s a n i w')

    -- Where no step but the writes touches the slice, a decode from a pointer that is not null, whose
    -- elements fail to decode, on a store that holds earlier values: it answers none, and the next sync
    -- succeeds exactly if the field stores sync and the new slice has the length of those values. It
    -- then writes them there, and otherwise leaves the slice unchanged.
    pub slice_decode_stale :
        (build : WideRefMut → S → W → Option (List R) × (S × W)) (vs : List R) (s s' : S)
        (old : Option WideRefMut) (a n i : ℕ) (w w' : W)
        (failed : build (record { address = suc a; metadata = n }) s w ≡ (none, (s', w')))
        → let q : WideRefMut = record { address = suc a; metadata = n } in
          let used : SliceDecode R S = record { value = some vs; store = s; source = old } in
          let (decoded, (self, _)) = slice_decode fields write encode_move q build used w in
          let (result, w2) = slice_decode_sync fields write encode_move self w' in
          (decoded ≡ none)
          × (is_some result ≡ (is_some (fields.sync s' w').0 && (n == length vs)))
          × (read (suc a + i) w2 ≡ (
              if is_some result then expected vs (read (suc a + i) w') i else read (suc a + i) w'))
    unfolding slice_decode decode_slice keep_decoded into_mut
    slice_decode_stale build vs s s' old a n i w w' failed =
        let synced = sync_pending_lem vs s' a n i w' in rw failed (refl, synced.0, synced.1)
