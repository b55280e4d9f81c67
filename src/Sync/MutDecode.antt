-- ===== src/Sync/MutDecode.antt =====
-- `RefMutSizedDecodeStore` of src/sync.rs: the store of a decoded `&mut R`. The Rust side works on
-- the value kept here, and syncing runs the callback that writes it back.
pub mod Laws
use co.Prelude.{Bool, true, false, Option, none, some, map_some}
use co.Store.{Store, drop_option}

-- The callback, a function that consumes the value and the state `P`.
abbrev pub Writeback {ω ρ π} : Type ω → Type ρ → Type π → Type (ω ⊔ ρ ⊔ π)
Writeback W R P = R → P → W → Option (Unit {0}) × W

-- `type DecodeWriteback`: the state, the callback, and whether the field stores are synced first.
pub record DecodeWriteback {ω ρ π} (W : Type ω) (R : Type ρ) (P : Type π) : Type (ω ⊔ ρ ⊔ π) where
  pub state : P
  pub callback : Writeback W R P
  pub sync_fields_first : Bool

-- `struct RefMutSizedDecodeStore`.
pub record MutDecode {ω ρ σ π} (W : Type ω) (R : Type ρ) (S : Type σ) (P : Type π)
    : Type (ω ⊔ ρ ⊔ σ ⊔ π) where
  pub value : Option R
  pub store : S
  pub writeback : Option (DecodeWriteback W R P)

-- A builder, which decodes the value with the field stores at its disposal.
abbrev pub Builder {ω σ ρ} : Type ω → Type σ → Type ρ → Type (ω ⊔ σ ⊔ ρ)
Builder W S A = S → W → Option A × (S × W)

-- `Option::and`.
abbrev pub and_both : Option (Unit {0}) → Option (Unit {0}) → Option (Unit {0})
and_both none synced = none
and_both (some _) synced = synced

-- `drop_value` is what dropping a value of type `R` does.
module _ {ω ρ σ π} {W : Type ω} {R : Type ρ} {S : Type σ} {P : Type π} (fields : Store W S)
    (drop_value : R → W → W) where
  -- `Default`.
  unfoldable pub mut_decode_default : MutDecode W R S P
  mut_decode_default = record { value = none; store = fields.default; writeback = none }

  -- `sync()?; return writeback(value, state)`.
  unfoldable pub write_after :
      DecodeWriteback W R P → R → Option (Unit {0}) → W → Option (Unit {0}) × W
  write_after b v none w = (none, drop_value v w)
  write_after b v (some _) w = b.callback v b.state w

  write_back : Bool → DecodeWriteback W R P → R → S → W → Option (Unit {0}) × W
  unfolding write_after
  write_back true b v s w = let (synced, w1) = fields.sync s w in write_after b v synced w1
  write_back false b v s w =
      let (written, w1) = b.callback v b.state w in
      let (synced, w2) = fields.sync s w1 in (and_both written synced, w2)

  finish_value :
      Option R → DecodeWriteback W R P → S → W → Option (Unit {0}) × (MutDecode W R S P × W)
  unfolding write_back mut_decode_default
  finish_value none b s w = (none, (record { value = none; store = s; writeback = none }, w))
  finish_value (some v) b s w =
      let (written, w') = write_back b.sync_fields_first b v s w in
      (written, (mut_decode_default, w'))

  finish_writeback :
      Option (DecodeWriteback W R P)
      → MutDecode W R S P
      → W
      → Option (Unit {0}) × (MutDecode W R S P × W)
  unfolding finish_value
  finish_writeback none self w = (none, (self, w))
  finish_writeback (some b) self w = finish_value self.value b self.store w

  -- `finish`.
  unfoldable pub mut_decode_finish :
      MutDecode W R S P → W → Option (Unit {0}) × (MutDecode W R S P × W)
  unfolding finish_writeback
  mut_decode_finish self w = finish_writeback self.writeback self w

  -- The drop of the fields; there is no `Drop` of its own, so that nothing is written back.
  unfoldable pub mut_decode_drop : MutDecode W R S P → W → W
  unfolding drop_option
  mut_decode_drop self w = fields.drop self.store (drop_option drop_value self.value w)

  -- What `decode_with_order` does with the builder's result; `insert` drops an earlier value.
  unfoldable pub keep_built :
      Option (R × P)
      → Writeback W R P
      → Bool
      → MutDecode W R S P
      → S
      → W
      → Option (Unit {0}) × (MutDecode W R S P × W)
  unfolding drop_option
  keep_built none callback first self s w =
      (none, (record { value = self.value; store = s; writeback = self.writeback }, w))
  keep_built (some x) callback first self s w =
      let b : DecodeWriteback W R P = record {
        state = x.1;
        callback = callback;
        sync_fields_first = first;
      } in
      (
        some tt,
        (
          record { value = some x.0; store = s; writeback = some b },
          drop_option drop_value self.value w,
        ),
      )

  unfoldable pub build_into :
      Builder W S (R × P)
      → Writeback W R P
      → Bool
      → MutDecode W R S P
      → W
      → Option (Unit {0}) × (MutDecode W R S P × W)
  unfolding keep_built
  build_into build callback first self w =
      let (built, (s, w')) = build self.store w in keep_built built callback first self s w'

  decode_after :
      Option (Unit {0})
      → Builder W S (R × P)
      → Writeback W R P
      → Bool
      → MutDecode W R S P
      → W
      → Option (Unit {0}) × (MutDecode W R S P × W)
  unfolding build_into
  decode_after none build callback first self w = (none, (self, w))
  decode_after (some _) build callback first self w = build_into build callback first self w

  decode_pending :
      Option (DecodeWriteback W R P)
      → Builder W S (R × P)
      → Writeback W R P
      → Bool
      → MutDecode W R S P
      → W
      → Option (Unit {0}) × (MutDecode W R S P × W)
  unfolding decode_after build_into mut_decode_finish
  decode_pending none build callback first self w = build_into build callback first self w
  decode_pending (some _) build callback first self w =
      let (written, (self', w')) = mut_decode_finish self w in
      decode_after written build callback first self' w'

  -- `decode_with_order`; the reference that it returns points to the value kept in the result.
  unfoldable pub decode_with_order :
      Builder W S (R × P)
      → Writeback W R P
      → Bool
      → MutDecode W R S P
      → W
      → Option (Unit {0}) × (MutDecode W R S P × W)
  unfolding decode_pending
  decode_with_order build callback first self w =
      decode_pending self.writeback build callback first self w

  -- `decode_with`.
  unfoldable pub decode_with :
      Builder W S (R × P)
      → Writeback W R P
      → MutDecode W R S P
      → W
      → Option (Unit {0}) × (MutDecode W R S P × W)
  unfolding decode_with_order
  decode_with build callback self w = decode_with_order build callback false self w

  -- `Store::sync`, and the drop of what is left.
  unfoldable pub mut_decode_sync : MutDecode W R S P → W → Option (Unit {0}) × W
  unfolding mut_decode_finish mut_decode_drop
  mut_decode_sync self w =
      let (written, (self', w')) = mut_decode_finish self w in (written, mut_decode_drop self' w')

  unfoldable pub mut_decode_store : Store W (MutDecode W R S P)
  unfolding mut_decode_default mut_decode_sync mut_decode_drop
  mut_decode_store = record {
    default = mut_decode_default;
    sync = mut_decode_sync;
    drop = mut_decode_drop;
  }

  -- `source.write(encode_move(value))`.
  unfoldable pub write_source {κ} :
      {C : Type κ} (encode_move : R → W → C × W) (write : P → C → W → W) → Writeback W R P
  write_source encode_move write v p w = let (c, w') = encode_move v w in (some tt, write p c w')

  decode_source {κ} :
      {C : Type κ} (encode_move : R → W → C × W) (write : P → C → W → W)
      → Option P
      → Builder W S R
      → MutDecode W R S P
      → W
      → Option (Unit {0}) × (MutDecode W R S P × W)
  unfolding decode_with_order write_source
  decode_source encode_move write none build self w = (none, (self, w))
  decode_source encode_move write (some p) build self w =
      decode_with_order (λ s w1. let (r, t) = build s w1 in (map_some (λ v. (v, p)) r, t))
        (write_source encode_move write) true self w

  -- `decode`; a null pointer is `none`.
  unfoldable pub mut_decode {κ} :
      {C : Type κ} (encode_move : R → W → C × W) (write : P → C → W → W)
      → Option P
      → Builder W S R
      → MutDecode W R S P
      → W
      → Option (Unit {0}) × (MutDecode W R S P × W)
  unfolding decode_source
  mut_decode encode_move write source build self w =
      decode_source encode_move write source build self w
