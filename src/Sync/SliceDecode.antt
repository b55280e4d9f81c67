-- ===== src/Sync/SliceDecode.antt =====
-- `RefMutSliceDecodeStore` of src/sync.rs: the store of a decoded `&mut [R]` whose elements are not
-- carriers themselves, and the soft wide reference of src/wide.rs that it writes back to.
pub mod Laws
use co.Prelude.{
  ℕ, zero, suc, Bool, true, false, Option, none, some, List, [], ◌∷◌, ◌>>=◌, length, if◌then◌else◌,
  ◌==◌, ◌+◌,
}
use co.Store.{Store}

-- `CSoftWideRefMut<[R], true>`; the address 0 is null.
pub record WideRefMut : Type 0 where
  pub address : ℕ
  pub metadata : ℕ

into_mut_at : ℕ → WideRefMut → Option WideRefMut
into_mut_at zero source = none
into_mut_at (suc _) source = some source

-- `CSoftWideRefMut::into_mut`: the slice is the reference with its address known not to be null.
unfoldable pub into_mut : WideRefMut → Option WideRefMut
unfolding into_mut_at
into_mut source = into_mut_at source.address source

-- `struct RefMutSliceDecodeStore`.
pub record SliceDecode {ρ σ} (R : Type ρ) (S : Type σ) : Type (ρ ⊔ σ) where
  pub value : Option (List R)
  pub store : S
  pub source : Option WideRefMut

-- `write` stores a carrier at the address of an element, `encode_move` is the element's own; dropping
-- an element has no effect on the memory here.
module _ {ω ρ κ σ} {W : Type ω} {R : Type ρ} {C : Type κ} {S : Type σ} (fields : Store W S)
    (write : ℕ → C → W → W) (encode_move : R → C) where
  -- `Default`.
  unfoldable pub slice_decode_default : SliceDecode R S
  slice_decode_default = record { value = none; store = fields.default; source = none }

  -- `Some(self.value.insert(value))`.
  unfoldable pub keep_decoded :
      Option (List R) → SliceDecode R S → S → W → Option (Unit {0}) × (SliceDecode R S × W)
  keep_decoded none self s w =
      (none, (record { value = self.value; store = s; source = self.source }, w))
  keep_decoded (some vs) self s w =
      (some tt, (record { value = some vs; store = s; source = self.source }, w))

  unfoldable pub decode_slice :
      Option WideRefMut
      → (WideRefMut → S → W → Option (List R) × (S × W))
      → SliceDecode R S
      → W
      → Option (Unit {0}) × (SliceDecode R S × W)
  unfolding keep_decoded
  decode_slice none build self w = (none, (self, w))
  decode_slice (some slice) build self w =
      let (decoded, (s, w')) = build slice self.store w in keep_decoded decoded self s w'

  -- `decode`; the slice that it returns is the value kept in the result.
  unfoldable pub slice_decode :
      WideRefMut
      → (WideRefMut → S → W → Option (List R) × (S × W))
      → SliceDecode R S
      → W
      → Option (Unit {0}) × (SliceDecode R S × W)
  unfolding decode_slice
  slice_decode source build self w =
      decode_slice (into_mut source) build
        (record { value = self.value; store = self.store; source = some source }) w

  -- The loop that encodes every element in place.
  unfoldable pub write_slice : ℕ → List R → W → W
  write_slice a [] w = w
  write_slice a (v ∷ vs) w = write_slice (suc a) vs (write a (encode_move v) w)

  unfoldable pub write_value : Option WideRefMut → List R → W → Option (Unit {0}) × W
  unfolding write_slice
  write_value none vs w = (none, w)
  write_value (some slice) vs w = (some tt, write_slice slice.address vs w)

  unfoldable pub check_length : WideRefMut → Option (List R) → W → Option (Unit {0}) × W
  unfolding write_value
  check_length source none w = (none, w)
  check_length source (some vs) w =
      if source.metadata == length vs then write_value (into_mut source) vs w else (none, w)

  unfoldable pub after_fields :
      Option (Unit {0}) → WideRefMut → Option (List R) → W → Option (Unit {0}) × W
  unfolding check_length
  after_fields none source value w = (none, w)
  after_fields (some _) source value w = check_length source value w

  sync_source : Option WideRefMut → SliceDecode R S → W → Option (Unit {0}) × W
  unfolding after_fields
  sync_source none self w = (none, fields.drop self.store w)
  sync_source (some source) self w =
      let (synced, w') = fields.sync self.store w in after_fields synced source self.value w'

  -- `Store::sync`.
  unfoldable pub slice_decode_sync : SliceDecode R S → W → Option (Unit {0}) × W
  unfolding sync_source
  slice_decode_sync self w = sync_source self.source self w
