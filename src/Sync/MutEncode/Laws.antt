-- ===== src/Sync/MutEncode/Laws.antt =====
-- What the write-back of an encoded `&mut R` guarantees.
use co.Prelude.{false, Option, none, some, is_some, ◌≡◌, ◌∙◌, refl, arith, ◌&&◌, if◌then◌else◌}
use co.Store.{Store, drop_option}
use co.Sync.MutEncode.{
  MutEncode, MutRef, mut_encode_default, mut_encode_finish, mut_encode_cancel, mut_encode,
  mut_encode_sync, mut_encode_drop, finish_with, assign_finished, drop_finished,
}

module _ {ω ρ κ σ π} {W : Type ω} {R : Type ρ} {C : Type κ} {S : Type σ} {P : Type π}
    (fields : Store W S) (mem : MutRef W R C P) where
  -- No step but the assignment touches a borrowed value: the borrowed value is read back as assigned,
  -- an assignment that is refused leaves it alone, and no other step touches it.
  pub record IsExclusive (read : P → W → R) : Type (ω ⊔ ρ ⊔ κ ⊔ σ ⊔ π) where
    pub decode_frame : (p : P) (c : C) (w : W) → read p (mem.decode_move c w).1 ≡ read p w
    pub sync_frame : (p : P) (s : S) (w : W) → read p (fields.sync s w).1 ≡ read p w
    pub store_frame : (p : P) (s : S) (w : W) → read p (fields.drop s w) ≡ read p w
    pub drop_frame : (p : P) (v : R) (w : W) → read p (mem.drop_value v w) ≡ read p w
    pub assign_read :
        (p : P) (v : R) (w : W)
        → read p (mem.assign p v w).1 ≡ (elim (mem.assign p v w).0 [ some _ ↦ v | none ↦ read p w ])

  -- Finishing leaves nothing to finish: the second time is refused and changes neither the store nor
  -- the memory, so that a carrier is decoded at most once.
  pub mut_encode_finish_once :
      (self : MutEncode C S P) (w w' : W)
      → let idle = (mut_encode_finish fields mem self w).1.0 in
        mut_encode_finish fields mem idle w' ≡ (none, (idle, w'))
  unfolding mut_encode_finish mut_encode_default
  mut_encode_finish_once self w w' = ground arith

  module _ (read : P → W → R) (law : IsExclusive read) where
    read-mut_encode_drop :
        (p : P) (w : W)
        → read p (mut_encode_drop fields mem (mut_encode_default fields mem) w) ≡ read p w
    unfolding mut_encode_drop mut_encode_cancel mut_encode_default mut_encode_finish
    read-mut_encode_drop p w = law.store_frame p fields.default w

    -- The end of a sync, after the carrier has been decoded and the fields have been synced.
    commit_lem :
        (p : P) (synced : Option (Unit {0})) (value : Option R) (w : W) (before : R)
        (same : read p w ≡ before)
        → let (result, w1) = finish_with fields mem synced p value w in
          let (written, w2) = assign_finished fields mem result w1 in
          (is_some written ≡ (
            is_some synced
            && (elim value [ some v ↦ is_some (mem.assign p v w).0 | none ↦ false ])))
          × (read p w2
              ≡ (elim value [ some v ↦ if is_some written then v else before | none ↦ before ]))
    unfolding finish_with assign_finished drop_option
    commit_lem p none none w before same = ground arith
    commit_lem p none (some v) w before same = ground (arith, law.drop_frame p v w)
    commit_lem p (some _) none w before same = ground arith
    commit_lem p (some _) (some v) w before same = ground (arith, law.assign_read p v w)

    -- Write-back is a transaction, where no step but the assignment touches the borrowed value, the
    -- sync of the field stores included. Syncing a pending store succeeds exactly if the carrier decodes, its
    -- field stores sync and the assignment is accepted; then the borrowed value is the decoded one, and
    -- otherwise it is what it was.
    pub mut_encode_sync_transaction :
        (c : C) (s : S) (p : P) (w : W)
        → let (value, w1) = mem.decode_move c w in
          let (synced, w2) = fields.sync s w1 in
          let (result, w') =
            mut_encode_sync fields mem
              (record { ctype = some c; store = s; original = some p })
              w in
          (is_some result ≡ (
            is_some synced
            && (elim value [ some v ↦ is_some (mem.assign p v w2).0 | none ↦ false ])))
          × (read p w'
              ≡ (elim value [ some v ↦ if is_some result then v else read p w | none ↦ read p w ]))
    unfolding mut_encode_sync
    mut_encode_sync_transaction c s p w =
        let a = mem.decode_move c w in
        let b = fields.sync s a.1 in
        let commit =
          commit_lem p b.0 a.0 b.1 (read p w) (law.sync_frame p s a.1 ∙ law.decode_frame p c w) in
        (commit.0, read-mut_encode_drop p _ ∙ commit.1)

    finish_with_frame :
        (q p : P) (synced : Option (Unit {0})) (value : Option R) (w : W)
        → let (result, w1) = finish_with fields mem synced p value w in
          read q (drop_finished fields mem result w1) ≡ read q w
    unfolding finish_with drop_finished drop_option
    finish_with_frame q p none none w = refl
    finish_with_frame q p none (some v) w = law.drop_frame q v w
    finish_with_frame q p (some _) none w = refl
    finish_with_frame q p (some _) (some v) w = law.drop_frame q v w

    -- Under the same condition, a pending store that is encoded into again, without having been synced, gives its conversion up:
    -- the new encoding starts from the default store, in a memory where every borrowed value is what
    -- it was.
    pub mut_encode_reuse :
        (c : C) (s : S) (p q : P) (build : P → S → W → C × (S × W)) (w : W)
        → let pending : MutEncode C S P = record { ctype = some c; store = s; original = some p } in
          let (idle, w') = mut_encode_cancel fields mem pending w in
          (mut_encode fields mem q build pending w
            ≡ mut_encode fields mem q build (mut_encode_default fields mem) w')
          × ((r : P) → read r w' ≡ read r w)
    unfolding mut_encode mut_encode_cancel mut_encode_finish mut_encode_default
    mut_encode_reuse c s p q build w =
        let a = mem.decode_move c w in
        let b = fields.sync s a.1 in
        (
          refl,
          λ r.
              finish_with_frame r p b.0 a.0 b.1 ∙ (law.sync_frame r s a.1 ∙ law.decode_frame r c w),
        )
