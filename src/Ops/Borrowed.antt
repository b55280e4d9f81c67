-- ===== src/Ops/Borrowed.antt =====
-- A call with one `&mut R` argument: `soft_call` of src/ops.rs over `RefMutSizedEncodeStore` of
-- src/sync.rs.
use co.Prelude.{
  Bool, true, false, ◌&&◌, Option, none, some, is_some, if◌then◌else◌, List, [], ◌∷◌, ◌≡◌, ◌∙◌,
  refl, ap,
}
use co.Store.{Store}
use co.Sync.MutEncode.{MutEncode, MutRef, mut_encode, mut_encode_sync, mut_encode_store}
use co.Sync.MutEncode.Laws.{IsExclusive, mut_encode_sync_transaction}
use co.Ops.{
  Argument, Carriers, Stores, default_stores, encode_args, sync_args, filter_ok, soft_call,
}

module _ {R C S P : Type 0} {W : Type 0} (fields : Store W S) (mem : MutRef W R C P) where
  -- The argument; its carrier is the address of the carrier kept in the store.
  abbrev pub mut_argument : P → (P → S → W → C × (S × W)) → Argument W
  mut_argument original build = record {
    Carrier = Unit {0};
    Stored = MutEncode C S P;
    store = mut_encode_store fields mem;
    soft_encode = λ self w. (tt, mut_encode fields mem original build self w);
  }

  -- A store that waits to be synced.
  abbrev pub pending : C → S → P → MutEncode C S P
  pending c s p = record { ctype = some c; store = s; original = some p }

  module _ {B U : Type 0} (decode : U → W → Option B × W) (drop_value : B → W → W)
      (read : P → W → R) (law : IsExclusive fields mem read)
      (decode_frame : (p : P) (u : U) (w : W) → read p (decode u w).1 ≡ read p w)
      (drop_frame : (p : P) (b : B) (w : W) → read p (drop_value b w) ≡ read p w) where
    filter_frame :
        (p : P) (ok : Bool) (value : Option B) (w : W)
        → (is_some (filter_ok drop_value ok value w).0 ≡ (ok && is_some value))
          × (read p (filter_ok drop_value ok value w).1 ≡ read p w)
    unfolding filter_ok
    filter_frame p true none w = (refl, refl)
    filter_frame p true (some b) w = (refl, refl)
    filter_frame p false none w = (refl, refl)
    filter_frame p false (some b) w = (refl, drop_frame p b w)

    -- A function that is called with `&mut R`, answers u and leaves the carrier c: where no step but the
    -- assignment touches the borrowed value, the call answers a value exactly if c decodes, the field
    -- stores sync, the assignment is accepted and u decodes. The borrowed value is the decoded one if
    -- c was accepted, also if u does not decode, and what the function left it otherwise.
    pub soft_call_borrowed :
        (p : P) (build : P → S → W → C × (S × W))
        (self : Carriers (mut_argument p build ∷ [])
          → Stores (mut_argument p build ∷ [])
          → W
          → U × (Stores (mut_argument p build ∷ []) × W))
        (w w2 : W) (u : U) (c : C) (s : S)
        (left : let (cs, (stores, w1)) =
            encode_args
              (mut_argument p build ∷ [])
              (default_stores (mut_argument p build ∷ []))
              w in
          self cs stores w1 ≡ (u, ((pending c s p, tt), w2)))
        → let (value, v1) = mem.decode_move c w2 in
          let (synced, v2) = fields.sync s v1 in
          let accepted =
            is_some synced
            && (elim value [ some v ↦ is_some (mem.assign p v v2).0 | none ↦ false ]) in
          let (answer, w') = soft_call (mut_argument p build ∷ []) decode drop_value self w in
          (is_some answer
            ≡ (accepted && is_some (decode u (mut_encode_sync fields mem (pending c s p) w2).1).0))
          × (read p w'
              ≡ (elim value [ some v ↦ if accepted then v else read p w2 | none ↦ read p w2 ]))
    unfolding soft_call encode_args default_stores sync_args mut_encode_store
    soft_call_borrowed p build self w w2 u c s left =
        let args : List (Argument W) = mut_argument p build ∷ [] in
        let rest : U × (Stores args × W) → Option B × W = λ t.
          let (sync_ok, w3) = sync_args true args t.1.0 t.1.1 in
          let (value, w4) = decode t.0 w3 in filter_ok drop_value sync_ok value w4 in
        let (r, w3) = mut_encode_sync fields mem (pending c s p) w2 in
        let (value, w4) = decode u w3 in
        let (answered, back) = filter_frame p (is_some r) value w4 in
        let (synced, written) = mut_encode_sync_transaction fields mem read law c s p w2 in
        (
          ap (λ t. is_some (rest t).0) left ∙ answered ∙ ap (λ ok. ok && is_some value) synced,
          ap (λ t. read p (rest t).1) left
              ∙ back
              ∙ decode_frame p u w3
              ∙ written
              ∙ ap
                  (λ ok. elim (mem.decode_move c w2).0 as (λ _. R) [
                    | some v ↦ if ok then v else read p w2
                    | none ↦ read p w2
                  ])
                  synced,
        )
