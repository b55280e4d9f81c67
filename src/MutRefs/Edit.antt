-- ===== src/MutRefs/Edit.antt =====
-- A value decoded from a pointer, edited and synced.
use co.Prelude.{true, some, map_some, is_some, if◌then◌else◌, ◌≡◌, ◌∙◌, ap}
use co.Sync.MutDecode.{MutDecode, mut_decode, mut_decode_default, mut_decode_sync, write_source}
use co.Sync.MutDecode.Laws.{IsExclusive, put_value, mut_decode_transaction, decode_default_lem}
use co.MutRefs.{MutConv, decode_mut}
use co.MutRefs.Laws.{IsMutConv}

module _ {ω ρ κ σ π} {W : Type ω} {R : Type ρ} {C : Type κ} {S : Type σ} {P : Type π}
    (v : MutConv W R C S) (drop_value : R → W → W) (write : P → C → W → W) (read : P → W → C) where
  -- What decoding the carrier of a value into the default store leaves.
  decode_mut_lem :
      (p : P) (r : R) (w : W) (law : IsMutConv (read p) v) (here : read p w ≡ v.encode_move r)
      → let (_, (s, w')) = v.decode_fields (v.encode_move r) v.decode_store.default w in
        decode_mut v drop_value write read (some p) (mut_decode_default v.decode_store drop_value) w
        ≡ (
          some tt,
          (
            record {
              value = some r;
              store = s;
              writeback = some (record {
                state = p;
                callback =
                    write_source v.decode_store drop_value (λ r w. (v.encode_move r, w)) write;
                sync_fields_first = true;
              });
            },
            w',
          ),
        )
  unfolding decode_mut mut_decode
  decode_mut_lem p r w law here =
      let (_, (s, w')) = v.decode_fields (v.encode_move r) v.decode_store.default w in
      decode_default_lem v.decode_store drop_value
        (λ fields w1.
          let (o, t) = v.decode_fields (read p w1) fields w1 in (map_some (λ x. (x, p)) o, t))
        _ true w w' r p s
        (ap
            (λ c.
              let (o, t) = v.decode_fields c v.decode_store.default w in
              (map_some (λ x. (x, p)) o, t))
            here
          ∙ ap (λ o. (map_some (λ x. (x, p)) o, (s, w')))
              (law.decode_encode r v.decode_store.default w))

  edit_at :
      (self : MutDecode W R S P) (p : P) (r r' : R) (kept s : S) (w w' : W) (stored : kept ≡ s)
      (there : w ≡ w') (same : read p w' ≡ v.encode_move r)
      (edit : let (synced, w1) = v.decode_store.sync s w' in
        let (result, w2) =
          mut_decode_sync v.decode_store drop_value
            (put_value v.decode_store drop_value r' self)
            w' in
        (result ≡ synced) × (read p w2 ≡ (if is_some synced then v.encode_move r' else read p w')))
      → let (synced, w1) = v.decode_store.sync kept w in
        let (result, w2) =
          mut_decode_sync v.decode_store drop_value
            (put_value v.decode_store drop_value r' self)
            w in
        (result ≡ synced)
        × (read p w2 ≡ (if is_some synced then v.encode_move r' else v.encode_move r))
  edit_at self p r r' kept s w w' stored there same edit =
      rw (stored, there)
        (
          edit.0,
          edit.1
              ∙ ap (λ c. if is_some (v.decode_store.sync s w').0 then v.encode_move r' else c) same,
        )

  -- Where the conversion keeps its contract and only the write touches the carrier: a pointer to the
  -- carrier of a value is decoded to that value. Whatever the caller makes of it stands encoded behind
  -- the pointer after the sync, if the field stores sync; otherwise the carrier is the one before.
  pub decode_mut_edit :
      (p : P) (r r' : R) (w : W) (law : IsMutConv (read p) v)
      (exclusive : IsExclusive v.decode_store drop_value (λ r w. (v.encode_move r, w)) write read)
      (here : read p w ≡ v.encode_move r)
      → let idle = mut_decode_default v.decode_store drop_value in
        let (decoded, (self, w')) = decode_mut v drop_value write read (some p) idle w in
        let (synced, w1) = v.decode_store.sync self.store w' in
        let (result, w2) =
          mut_decode_sync v.decode_store drop_value
            (put_value v.decode_store drop_value r' self)
            w' in
        (decoded ≡ some tt)
        × (self.value ≡ some r)
        × (result ≡ synced)
        × (read p w2 ≡ (if is_some synced then v.encode_move r' else v.encode_move r))
  unfolding decode_mut mut_decode
  decode_mut_edit p r r' w law exclusive here =
      let whole = decode_mut_lem p r w law here in
      let (_, (s, w')) = v.decode_fields (v.encode_move r) v.decode_store.default w in
      let built =
        ap (λ c. v.decode_fields c v.decode_store.default w) here
        ∙ ap (λ o. (o, (s, w'))) (law.decode_encode r v.decode_store.default w) in
      let edit =
        mut_decode_transaction v.decode_store drop_value (λ r w. (v.encode_move r, w)) write read
          exclusive (λ fields w1. v.decode_fields (read p w1) fields w1) w w' r r' p s built in
      let same = law.decode_frame (v.encode_move r) v.decode_store.default w ∙ here in
      let (result, after) =
        edit_at
          (decode_mut v drop_value write read (some p)
            (mut_decode_default v.decode_store drop_value) w).1.0
          p r r' _ s _ w' (ap (λ d. d.1.0.store) whole) (ap (λ d. d.1.1) whole) same edit in
      (ap (λ d. d.0) whole, ap (λ d. d.1.0.value) whole, result, after)
