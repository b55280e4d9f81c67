-- ===== src/Sync/MutDecode/Laws.antt =====
-- What the write-back of a decoded `&mut R` guarantees.
use co.Prelude.{
  Bool, true, false, Option, none, some, is_some, map_some, ap, ◌≡◌, ◌∙◌, refl, arith,
  if◌then◌else◌,
}
use co.Store.{Store, drop_option}
use co.Sync.MutDecode.{
  MutDecode, DecodeWriteback, Writeback, Builder, mut_decode_default, mut_decode_finish,
  mut_decode_sync, mut_decode, decode_with_order, decode_with, mut_decode_drop, build_into,
  keep_built, write_source, write_after,
}

module _ {ω ρ σ π} {W : Type ω} {R : Type ρ} {S : Type σ} {P : Type π} (fields : Store W S)
    (drop_value : R → W → W) where
  -- What the caller does through the reference that a decode returns.
  unfoldable pub put_value : R → MutDecode W R S P → MutDecode W R S P
  put_value v self = record { value = some v; store = self.store; writeback = self.writeback }

  -- A value is kept exactly while its write-back is pending. Every operation of the store keeps this,
  -- on each of its paths.
  pub mut_decode_paired :
      (self : MutDecode W R S P) (w : W) (build : Builder W S (R × P)) (callback : Writeback W R P)
      (first : Bool) (paired : is_some self.value ≡ is_some self.writeback)
      → let finished = (mut_decode_finish fields drop_value self w).1.0 in
        (is_some finished.value ≡ is_some finished.writeback)
        × (let decoded = (decode_with_order fields drop_value build callback first self w).1.0 in
            is_some decoded.value ≡ is_some decoded.writeback)
  unfolding mut_decode_finish decode_with_order mut_decode_default
  mut_decode_paired self w build callback first paired = (ground arith, ground arith)

  -- Finishing leaves nothing to finish: the second time is refused and changes nothing.
  pub mut_decode_finish_once :
      (self : MutDecode W R S P) (w w' : W)
      → let idle = (mut_decode_finish fields drop_value self w).1.0 in
        mut_decode_finish fields drop_value idle w' ≡ (none, (idle, w'))
  unfolding mut_decode_finish mut_decode_default
  mut_decode_finish_once self w w' = ground arith

  -- Decoding into a store whose write-back is pending writes the earlier value back first. Where that
  -- fails the builder is not run; where it succeeds the decode is one into the default store.
  pub decode_with_order_reuse :
      (v : R) (s : S) (b : DecodeWriteback W R P) (build : Builder W S (R × P))
      (callback : Writeback W R P) (first : Bool) (w : W)
      → let pending : MutDecode W R S P = record {
        value = some v;
        store = s;
        writeback = some b;
      } in
        let (written, (_, w')) = mut_decode_finish fields drop_value pending w in
        let idle = mut_decode_default fields drop_value in
        decode_with_order fields drop_value build callback first pending w ≡ (elim written [
          | some _ ↦ decode_with_order fields drop_value build callback first idle w'
          | none ↦ (none, (idle, w'))
        ])
  unfolding decode_with_order mut_decode_finish mut_decode_default
  decode_with_order_reuse v s b build callback first w = ground arith

  -- A decode into the default store keeps what the builder made.
  pub decode_default_lem :
      (build : Builder W S (R × P)) (callback : Writeback W R P) (first : Bool) (w w' : W) (v : R)
      (p : P) (s : S) (built : build fields.default w ≡ (some (v, p), (s, w')))
      → decode_with_order fields drop_value build callback first
          (mut_decode_default fields drop_value)
          w
        ≡ (
          some tt,
          (
            record {
              value = some v;
              store = s;
              writeback =
                  some (record { state = p; callback = callback; sync_fields_first = first });
            },
            w',
          ),
        )
  unfolding decode_with_order mut_decode_default build_into keep_built drop_option
  decode_default_lem build callback first w w' v p s built = rw built

  -- A value decoded by `decode_with`, whatever the caller makes of it, is written back before the
  -- field stores are synced; both are run even if one fails, and the sync succeeds exactly if both do.
  pub decode_with_sync :
      (build : Builder W S (R × P)) (callback : Writeback W R P) (w w' : W) (v v' : R) (p : P)
      (s : S) (built : build fields.default w ≡ (some (v, p), (s, w')))
      → let self =
          (decode_with fields drop_value build callback
            (mut_decode_default fields drop_value)
            w).1.0 in
        let (written, w1) = callback v' p w' in
        let (synced, w2) = fields.sync s w1 in
        mut_decode_sync fields drop_value (put_value v' self) w'
        ≡ ((if is_some written then synced else none), fields.drop fields.default w2)
  unfolding decode_with mut_decode_sync mut_decode_finish mut_decode_default put_value
      mut_decode_drop
  decode_with_sync build callback w w' v v' p s built =
      rw (decode_default_lem build callback false w w' v p s built) (ground arith)

  module _ {κ} {C : Type κ} (encode_move : R → W → C × W) (write : P → C → W → W)
      (read : P → W → C) where
    -- The memory behaves as exclusive access makes it: a carrier is read back as written, and no
    -- other step touches it.
    pub record IsExclusive : Type (ω ⊔ ρ ⊔ σ ⊔ π ⊔ κ) where
      pub write_read : (p : P) (c : C) (w : W) → read p (write p c w) ≡ c
      pub sync_frame : (p : P) (s : S) (w : W) → read p (fields.sync s w).1 ≡ read p w
      pub store_frame : (p : P) (s : S) (w : W) → read p (fields.drop s w) ≡ read p w
      pub drop_frame : (p : P) (v : R) (w : W) → read p (drop_value v w) ≡ read p w

    commit_lem :
        (law : IsExclusive) (p : P) (v : R) (first : Bool) (synced : Option (Unit {0})) (w : W)
        (before : C) (same : read p w ≡ before)
        → let b : DecodeWriteback W R P = record {
          state = p;
          callback = write_source fields drop_value encode_move write;
          sync_fields_first = first;
        } in
          let (result, w') = write_after fields drop_value b v synced w in
          (result ≡ synced)
          × (read p (fields.drop fields.default w')
              ≡ (if is_some synced then (encode_move v w).0 else before))
    unfolding write_after write_source
    commit_lem law p v first none w before same =
        (refl, law.store_frame p _ _ ∙ (law.drop_frame p v w ∙ same))
    commit_lem law p v first (some x) w before same =
        (refl, law.store_frame p _ _ ∙ law.write_read p _ _)

    -- Write-back of a whole value is a transaction, where no step but the write touches the carrier.
    -- A value decoded from a pointer, whatever the
    -- caller makes of it, is encoded to where it came from exactly if its field stores sync;
    -- otherwise the carrier there is what it was, and the sync fails.
    pub mut_decode_transaction :
        (law : IsExclusive) (build : Builder W S R) (w w' : W) (v v' : R) (p : P) (s : S)
        (built : build fields.default w ≡ (some v, (s, w')))
        → let idle = mut_decode_default fields drop_value in
          let self = (mut_decode fields drop_value encode_move write (some p) build idle w).1.0 in
          let (synced, w1) = fields.sync s w' in
          let (result, w2) = mut_decode_sync fields drop_value (put_value v' self) w' in
          (result ≡ synced)
          × (read p w2 ≡ (if is_some synced then (encode_move v' w1).0 else read p w'))
    unfolding mut_decode mut_decode_sync mut_decode_finish put_value mut_decode_drop
        mut_decode_default
    mut_decode_transaction law build w w' v v' p s built =
        let c = write_source fields drop_value encode_move write in
        rw
          (decode_default_lem (λ s w1. let (r, t) = build s w1 in (map_some (λ v. (v, p)) r, t)) c
            true w w' v p s (ap (λ x. (map_some (λ v. (v, p)) x.0, x.1)) built))
          (commit_lem law p v' true (fields.sync s w').0 (fields.sync s w').1 (read p w')
            (law.sync_frame p s w'))
