-- ===== src/Sync/Shared.antt =====
-- `RefSizedEncodeStore`, `RefSizedDecodeStore` and `RefMutReferenceEncodeStore` of src/sync.rs: the
-- stores of shared references, which write nothing back, and of a mutable reborrow.
pub mod Laws
use co.Prelude.{Bool, true, false, Option, none, some, is_some, ◌&&◌, if◌then◌else◌}
use co.Store.{Store, drop_option, then_some}

-- `struct RefSizedEncodeStore`, and `RefSizedDecodeStore`: the converted value, kept for the
-- reference, and the stores of its fields.
pub record RefSized {ν σ} (V : Type ν) (S : Type σ) : Type (ν ⊔ σ) where
  pub value : Option V
  pub store : S

module _ {ω ν σ} {W : Type ω} {V : Type ν} {S : Type σ} (fields : Store W S)
    (drop_value : V → W → W) where
  -- `Default` of both.
  unfoldable pub ref_sized_default : RefSized V S
  ref_sized_default = record { value = none; store = fields.default }

  -- `RefSizedEncodeStore::encode`: the earlier carrier is dropped before the builder runs.
  unfoldable pub ref_sized_encode : (S → W → V × (S × W)) → RefSized V S → W → RefSized V S × W
  unfolding drop_option
  ref_sized_encode encode self w =
      let (value, (s, w')) = encode self.store (drop_option drop_value self.value w) in
      (record { value = some value; store = s }, w')

  -- `RefSizedDecodeStore::decode`: the result tells whether there is a reference.
  unfoldable pub ref_sized_decode :
      (S → W → Option V × (S × W)) → RefSized V S → W → Option (Unit {0}) × (RefSized V S × W)
  unfolding drop_option
  ref_sized_decode decode self w =
      let (value, (s, w')) = decode self.store (drop_option drop_value self.value w) in
      ((if is_some value then some tt else none), (record { value = value; store = s }, w'))

  -- `Store` of both: `sync` returns at once, and the fields are dropped.
  unfoldable pub ref_sized_drop : RefSized V S → W → W
  unfolding drop_option
  ref_sized_drop self w = fields.drop self.store (drop_option drop_value self.value w)

  unfoldable pub ref_sized_store : Store W (RefSized V S)
  unfolding ref_sized_default ref_sized_drop
  ref_sized_store = record {
    default = ref_sized_default;
    sync = λ self w. (some tt, ref_sized_drop self w);
    drop = ref_sized_drop;
  }

  -- `RefWideEncodeStore::encode`: here the earlier carrier is dropped after the builder has run.
  unfoldable pub ref_wide_encode : (S → W → V × (S × W)) → RefSized V S → W → RefSized V S × W
  unfolding drop_option
  ref_wide_encode encode self w =
      let (value, (s, w')) = encode self.store w in
      (record { value = some value; store = s }, drop_option drop_value self.value w')

  -- `RefDstDecodeStore::decode`, of an owned value for a reference to what it derefs to.
  unfoldable pub ref_dst_decode :
      (S → W → Option V × (S × W)) → RefSized V S → W → Option (Unit {0}) × (RefSized V S × W)
  unfolding ref_sized_decode
  ref_dst_decode decode self w = ref_sized_decode decode self w

-- `struct RefVecEncodeStore`: the encoded elements, and the stores of their fields.
pub record RefVec {ν σ} (V : Type ν) (S : Type σ) : Type (ν ⊔ σ) where
  pub elements : V
  pub fields : S

module _ {ω ν σ} {W : Type ω} {V : Type ν} {S : Type σ} (store : Store W S) (empty : V)
    (drop_elements : V → W → W) where
  -- `Default`; the empty vector owns nothing.
  unfoldable pub ref_vec_default : RefVec V S
  ref_vec_default = record { elements = empty; fields = store.default }

  -- `RefVecEncodeStore::encode`: the assignment drops the earlier elements.
  unfoldable pub ref_vec_encode : (S → W → V × (S × W)) → RefVec V S → W → RefVec V S × W
  ref_vec_encode encode self w =
      let (elements, (s, w')) = encode self.fields w in
      (record { elements = elements; fields = s }, drop_elements self.elements w')

  -- `Store::sync`: the elements are dropped after the fields have been synced.
  unfoldable pub ref_vec_sync : RefVec V S → W → Option (Unit {0}) × W
  ref_vec_sync self w =
      let (r, w') = store.sync self.fields w in (r, drop_elements self.elements w')

-- `struct RefMutReferenceEncodeStore`: the reborrowed pointer as it was encoded, as the foreign side
-- left it, and the store of the pointee.
pub record RefMutReference {κ σ} (C : Type κ) (S : Type σ) : Type (κ ⊔ σ) where
  pub value : Option C
  pub original : Option C
  pub inner : S

module _ {ω κ σ} {W : Type ω} {C : Type κ} {S : Type σ} (fields : Store W S)
    (eq : C → C → Bool) where
  -- `PartialEq for Option`.
  option_eq : Option C → Option C → Bool
  option_eq none none = true
  option_eq (some c) (some d) = eq c d
  option_eq _ _ = false

  unfoldable pub reference_default : RefMutReference C S
  reference_default = record { value = none; original = none; inner = fields.default }

  after_inner : Option (Unit {0}) → Bool → Option (Unit {0})
  after_inner none unchanged = none
  after_inner (some _) unchanged = then_some unchanged

  -- `Store::sync`: a replaced pointer is refused, after the pointee has been synced.
  unfoldable pub reference_sync : RefMutReference C S → W → Option (Unit {0}) × W
  unfolding option_eq after_inner
  reference_sync self w =
      let unchanged = is_some self.value && option_eq self.value self.original in
      let (synced, w') = fields.sync self.inner w in (after_inner synced unchanged, w')
