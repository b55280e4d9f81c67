-- ===== src/Sync/MutEncode.antt =====
-- `RefMutSizedEncodeStore` of src/sync.rs: the store of an encoded `&mut R`. The foreign side works
-- on the carrier kept here, and syncing decodes it and assigns it to the borrowed value.
-- `RefMutDstEncodeStore` runs the same steps with an assignment of its own.
pub mod Laws
use co.Prelude.{Option, none, some, map_some, ◌>>=◌}
use co.Store.{Store, drop_option}

-- `struct RefMutSizedEncodeStore`; `P` is the address of the borrowed value.
pub record MutEncode {κ σ π} (C : Type κ) (S : Type σ) (P : Type π) : Type (κ ⊔ σ ⊔ π) where
  pub ctype : Option C
  pub store : S
  pub original : Option P

-- What the store uses of the memory `W` and of the value's type: `decode_move`, the drop of a
-- decoded value, and its assignment through the borrow.
pub record MutRef {ω ρ κ π} (W : Type ω) (R : Type ρ) (C : Type κ) (P : Type π)
    : Type (ω ⊔ ρ ⊔ κ ⊔ π) where
  pub decode_move : C → W → Option R × W
  pub drop_value : R → W → W
  pub assign : P → R → W → Option (Unit {0}) × W

module _ {ω ρ κ σ π} {W : Type ω} {R : Type ρ} {C : Type κ} {S : Type σ} {P : Type π}
    (fields : Store W S) (mem : MutRef W R C P) where
  -- `Default`.
  unfoldable pub mut_encode_default : MutEncode C S P
  mut_encode_default = record { ctype = none; store = fields.default; original = none }

  -- `synced?; Some((original, value?))`.
  unfoldable pub finish_with : Option (Unit {0}) → P → Option R → W → Option (P × R) × W
  unfolding drop_option
  finish_with none p value w = (none, drop_option mem.drop_value value w)
  finish_with (some _) p none w = (none, w)
  finish_with (some _) p (some v) w = (some (p, v), w)

  finish_original : Option P → Option (Unit {0}) → Option R → W → Option (P × R) × W
  unfolding finish_with drop_option
  finish_original none synced value w = (none, drop_option mem.drop_value value w)
  finish_original (some p) synced value w = finish_with synced p value w

  finish_ctype : Option C → MutEncode C S P → W → Option (P × R) × (MutEncode C S P × W)
  unfolding finish_original mut_encode_default
  finish_ctype none self w = (none, (self, w))
  finish_ctype (some c) self w =
      let (value, w1) = mem.decode_move c w in
      let (synced, w2) = fields.sync self.store w1 in
      let (result, w3) = finish_original self.original synced value w2 in
      (result, (mut_encode_default, w3))

  -- `finish`: each part is taken, so that it is done once.
  unfoldable pub mut_encode_finish : MutEncode C S P → W → Option (P × R) × (MutEncode C S P × W)
  unfolding finish_ctype
  mut_encode_finish self w = finish_ctype self.ctype self w

  unfoldable pub drop_finished : Option (P × R) → W → W
  drop_finished none w = w
  drop_finished (some x) w = mem.drop_value x.1 w

  -- `drop(self.finish())`: what was decoded is not written back.
  unfoldable pub mut_encode_cancel : MutEncode C S P → W → MutEncode C S P × W
  unfolding mut_encode_finish drop_finished
  mut_encode_cancel self w =
      let (result, (idle, w')) = mut_encode_finish self w in (idle, drop_finished result w')

  -- `Drop for RefMutSizedEncodeStore`, and the drop of its fields behind it.
  unfoldable pub mut_encode_drop : MutEncode C S P → W → W
  unfolding mut_encode_cancel
  mut_encode_drop self w = let (idle, w') = mut_encode_cancel self w in fields.drop idle.store w'

  -- `encode`; the reference that it returns points to the carrier kept in the result.
  unfoldable pub mut_encode :
      P → (P → S → W → C × (S × W)) → MutEncode C S P → W → MutEncode C S P × W
  unfolding mut_encode_cancel
  mut_encode original build self w =
      let (idle, w1) = mut_encode_cancel self w in
      let (c, (store, w2)) = build original idle.store w1 in
      (record { ctype = some c; store = store; original = some original }, w2)

  unfoldable pub assign_finished : Option (P × R) → W → Option (Unit {0}) × W
  assign_finished none w = (none, w)
  assign_finished (some x) w = mem.assign x.0 x.1 w

  -- `Store::sync`; the `Drop` that follows is part of it.
  unfoldable pub mut_encode_sync : MutEncode C S P → W → Option (Unit {0}) × W
  unfolding mut_encode_finish assign_finished mut_encode_drop
  mut_encode_sync self w =
      let (result, (idle, w1)) = mut_encode_finish self w in
      let (written, w2) = assign_finished result w1 in (written, mut_encode_drop idle w2)

  unfoldable pub mut_encode_store : Store W (MutEncode C S P)
  unfolding mut_encode_default mut_encode_sync mut_encode_drop
  mut_encode_store = record {
    default = mut_encode_default;
    sync = mut_encode_sync;
    drop = mut_encode_drop;
  }
