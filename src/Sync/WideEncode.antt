-- ===== src/Sync/WideEncode.antt =====
-- `RefMutWideEncodeStore` of src/sync.rs: the store of an encoded `&mut` to a slice or to a type with
-- a slice tail, whose elements are copied back one by one.
pub mod Laws
use co.Prelude.{Option, none, some, is_some}
use co.Store.{Store, drop_option}

-- The writeback: its state, and the callback that copies from the carrier.
pub record CopyBack {ω κ π} (W : Type ω) (C : Type κ) (P : Type π) : Type (ω ⊔ κ ⊔ π) where
  pub state : P
  pub copy_back : C → P → W → W

-- `struct RefMutWideEncodeStore`.
pub record WideEncode {ω κ σ π} (W : Type ω) (C : Type κ) (S : Type σ) (P : Type π)
    : Type (ω ⊔ κ ⊔ σ ⊔ π) where
  pub ctype : Option C
  pub fields : S
  pub writeback : Option (CopyBack W C P)

-- `drop_ctype` is what dropping the owned pointee does.
module _ {ω κ σ π} {W : Type ω} {C : Type κ} {S : Type σ} {P : Type π} (store : Store W S)
    (drop_ctype : C → W → W) where
  unfoldable pub wide_encode_default : WideEncode W C S P
  wide_encode_default = record { ctype = none; fields = store.default; writeback = none }

  -- `encode`: pending writeback is given up, and the previous pointee outlives the builder.
  unfoldable pub wide_encode :
      (S → W → (C × P) × (S × W))
      → (C → P → W → W)
      → WideEncode W C S P
      → W
      → WideEncode W C S P × W
  unfolding drop_option
  wide_encode build copy_back self w =
      let (built, (s, w')) = build self.fields w in
      (
        record {
          ctype = some built.0;
          fields = s;
          writeback = some (record { state = built.1; copy_back = copy_back });
        },
        drop_option drop_ctype self.ctype w',
      )

  finish_copy : Option C → CopyBack W C P → S → W → Option (Unit {0}) × W
  finish_copy none b s w = (none, store.drop s w)
  finish_copy (some c) b s w = store.sync s (drop_ctype c (b.copy_back c b.state w))

  finish_writeback : Option (CopyBack W C P) → Option C → S → W → Option (Unit {0}) × W
  unfolding finish_copy drop_option
  finish_writeback none ctype s w = store.sync s (drop_option drop_ctype ctype w)
  finish_writeback (some b) ctype s w = finish_copy ctype b s w

  -- `Store::sync`.
  unfoldable pub wide_encode_sync : WideEncode W C S P → W → Option (Unit {0}) × W
  unfolding finish_writeback
  wide_encode_sync self w = finish_writeback self.writeback self.ctype self.fields w

  -- The drop of the fields, which copies nothing back.
  unfoldable pub wide_encode_drop : WideEncode W C S P → W → W
  unfolding drop_option
  wide_encode_drop self w = store.drop self.fields (drop_option drop_ctype self.ctype w)

  unfoldable pub wide_encode_store : Store W (WideEncode W C S P)
  unfolding wide_encode_default wide_encode_sync wide_encode_drop
  wide_encode_store = record {
    default = wide_encode_default;
    sync = wide_encode_sync;
    drop = wide_encode_drop;
  }
