-- ===== src/Boxed.antt =====
-- `CBox` of src/boxed.rs and the conversions of `Box` in src/stored.rs: a new box for the lowered value,
-- or the same allocation where the layouts agree.
pub mod Laws
use co.Prelude.{
  ℕ, suc, Bool, true, false, Option, none, some, List, [], ◌∷◌, ◌==◌, if◌then◌else◌, ◌>>=◌,
}
use co.Conv.{Conv, Niche}
use co.Alloc.{Allocation, Heap, RustVec, rust_into_raw_parts, rust_from_raw_parts}

-- `alloc::boxed::Box`, with the address of its allocation.
pub record Box {ℓ} (A : Type ℓ) : Type ℓ where
  pub address : ℕ
  pub value : A

-- `struct CBox`: a pointer that may be null.
pub record CBox : Type 0 where
  pub address : ℕ

-- `CBox::null`.
unfoldable pub c_box_null : CBox
c_box_null = record { address = 0 }

-- `CBox::is_null`.
unfoldable pub is_null : CBox → Bool
is_null c = c.address == 0

module _ {ℓ} {A : Type ℓ} where
  -- An allocation for one value.
  abbrev pub as_vec : Box A → RustVec A
  as_vec b = record { address = b.address; items = b.value ∷ []; capacity = 1 }

  -- `Box::new`.
  unfoldable pub box_new : A → Heap A → Box A × Heap A
  box_new value h = (record { address = h.next; value = value }, record h { next = suc h.next })

  -- `Box::into_raw`, in `CBox::from_box` and `CBox::from_non_null`.
  unfoldable pub from_box : Box A → Heap A → CBox × Heap A
  unfolding rust_into_raw_parts
  from_box b h = (record { address = b.address }, (rust_into_raw_parts (as_vec b) h).1)

  only_value : ℕ → List A → Heap A → Option (Box A × Heap A)
  only_value address (value ∷ []) h = some (record { address = address; value = value }, h)
  only_value address _ h = none

  -- `Box::from_raw`, with no value for undefined behaviour.
  unfoldable pub box_from_raw : ℕ → Heap A → Option (Box A × Heap A)
  unfolding rust_from_raw_parts only_value
  box_from_raw address h =
      rust_from_raw_parts address 1 1 h >>= λ (w, h'). only_value address w.items h'

  unfoldable pub some_box : Option (Box A × Heap A) → Option (Option (Box A) × Heap A)
  some_box none = none
  some_box (some (b, h)) = some (some b, h)

  -- `CBox::into_box`: `some none` is the answer `None`.
  unfoldable pub into_box : CBox → Heap A → Option (Option (Box A) × Heap A)
  unfolding is_null box_from_raw some_box
  into_box c h = if is_null c then some (none, h) else some_box (box_from_raw c.address h)

  -- `&*target.as_ptr()`.
  unfoldable pub read_box : CBox → Heap A → Option A
  unfolding box_from_raw
  read_box c h = box_from_raw c.address h >>= λ (b, _). some b.value

-- `Niche for Box`.
unfoldable pub box_niche : Niche CBox
unfolding c_box_null is_null
box_niche = record { niche = c_box_null; is_niche = is_null }

module _ {ℓ κ μ ν} {T : Type ℓ} {C : Type κ} {E : Type μ} {D : Type ν} (v : Conv T C E D) where
  -- `EncodeMove::soft_encode` for `Box`: the box of the source is freed.
  unfoldable pub box_encode : Box T → E → Heap C → CBox × E × Heap C
  unfolding box_new from_box
  box_encode self store hc =
      let (c, store') = v.soft_encode self.value store in
      let (lowered, hc') = box_new c hc in
      let (carrier, hc'') = from_box lowered hc' in (carrier, store', hc'')

  rebox : Option T → Heap T → Option (Box T) × Heap T
  rebox none ht = (none, ht)
  rebox (some t) ht = let (b, ht') = box_new t ht in (some b, ht')

  decode_box : Option (Box C) → D → Heap T → Heap C → Option (Box T) × D × Heap T × Heap C
  decode_box none store ht hc = (none, store, ht, hc)
  decode_box (some b) store ht hc =
      let (t, store') = v.soft_decode b.value store in
      let (o, ht') = rebox t ht in (o, store', ht', hc)

  -- `DecodeMove::soft_decode` for `Box` of a type without a stable layout: the carrier's box is freed
  -- whether or not its value decodes.
  unfoldable pub box_decode :
      CBox → D → Heap T → Heap C → Option (Option (Box T) × D × Heap T × Heap C)
  unfolding into_box decode_box rebox
  box_decode source store ht hc =
      into_box source hc >>= λ (b, hc'). some (decode_box b store ht hc')

  -- `AbiCompatibleValidate::is_valid` for `Box`.
  unfoldable pub box_is_valid : CBox → Heap C → Option Bool
  unfolding is_null read_box
  box_is_valid target hc =
      if is_null target then some false else (read_box target hc >>= λ c. some (v.is_valid c))

  retype_box : ℕ → Option T → Heap C → Option (Option (Box T) × Heap C)
  retype_box address none hc = none
  retype_box address (some t) hc = some (some (record { address = address; value = t }), hc)

  -- `soft_decode_unchecked`: `Box::from_raw` of the cast pointer.
  unfoldable pub box_decode_unchecked : CBox → Heap C → Option (Option (Box T) × Heap C)
  unfolding box_from_raw retype_box
  box_decode_unchecked source hc = box_from_raw source.address hc >>= λ (b, hc').
      retype_box b.address (v.soft_decode b.value v.decode_default).0 hc'

  box_decode_checked : Bool → CBox → Heap C → Option (Option (Box T) × Heap C)
  box_decode_checked true source hc = box_decode_unchecked source hc
  box_decode_checked false source hc = some (none, hc)

  -- `DecodeMove::soft_decode` for `Box` of a type with a stable layout.
  unfoldable pub box_decode_stable : CBox → Heap C → Option (Option (Box T) × Heap C)
  unfolding box_is_valid box_decode_checked box_decode_unchecked
  box_decode_stable source hc =
      box_is_valid source hc >>= λ valid. box_decode_checked valid source hc
