-- ===== src/Boxed/Laws.antt =====
-- A box comes back with its value; on which paths its allocation is freed.
use co.Prelude.{
  ℕ, Bool, true, false, Option, none, some, is_some, ◌==◌, ◌>>=◌, ◌≡◌, ◌≢◌, ◌∙◌, refl, ap, arith,
}
use co.Conv.{Conv, IsConv}
use co.Alloc.{Heap, rust_into_raw_parts, set_raw, IsOwned, IsHeap}
use co.Alloc.Laws.{rust_from_raw_parts-rust_into_raw_parts}
use co.Boxed.{
  Box, is_null, as_vec, box_new, from_box, only_value, box_from_raw, some_box, into_box, read_box,
  box_encode, rebox, decode_box, box_decode, box_is_valid, retype_box, box_decode_unchecked,
  box_decode_checked, box_decode_stable,
}

not_null : (a : ℕ) → a ≢ 0 → (a == 0) ≡ false
not_null a ne = ground arith

module _ {ℓ} {A : Type ℓ} where
  pub box_from_raw-from_box :
      (b : Box A) (h : Heap A) (owned : IsOwned (as_vec b) h)
      → let (c, given) = from_box b h in box_from_raw c.address given ≡ some (b, h)
  unfolding box_from_raw from_box only_value
  box_from_raw-from_box b h owned =
      ap (λ o. o >>= λ (w, h'). only_value b.address w.items h')
        (rust_from_raw_parts-rust_into_raw_parts (as_vec b) h owned)

  -- `into_box` gives the box of `from_box` back.
  pub into_box-from_box :
      (b : Box A) (h : Heap A) (owned : IsOwned (as_vec b) h)
      → let (c, given) = from_box b h in into_box c given ≡ some (some b, h)
  unfolding into_box is_null from_box
  into_box-from_box b h owned =
      rw (not_null b.address owned.0) (ap some_box (box_from_raw-from_box b h owned))

  read_box-from_box :
      (b : Box A) (h : Heap A) (owned : IsOwned (as_vec b) h)
      → let (c, given) = from_box b h in read_box c given ≡ some b.value
  unfolding read_box
  read_box-from_box b h owned =
      ap (λ o. o >>= λ (b, _). some b.value) (box_from_raw-from_box b h owned)

  box_new-IsOwned :
      (value : A) (h : Heap A) (heap : IsHeap h)
      → let (b, h') = box_new value h in IsOwned (as_vec b) h' × (h'.raw ≡ h.raw)
  unfolding box_new
  box_new-IsOwned value h heap =
      (((λ e. omega (arith, e, heap.0)), omega arith, λ p. heap.1 h.next (omega arith)), refl)

  -- A box that was given to a carrier has its allocation in the heap.
  from_box_raw : (b : Box A) (h : Heap A) → is_some ((from_box b h).1.raw b.address) ≡ true
  unfolding from_box rust_into_raw_parts set_raw
  from_box_raw b h = ground arith

module _ {ℓ κ μ ν} {T : Type ℓ} {C : Type κ} {E : Type μ} {D : Type ν} (v : Conv T C E D)
    (law : IsConv v) where
  box_decode-from_box :
      (b : Box C) (store : D) (ht : Heap T) (hc : Heap C) (owned : IsOwned (as_vec b) hc)
      → let (c, given) = from_box b hc in
        box_decode v c store ht given ≡ some (decode_box v (some b) store ht hc)
  unfolding box_decode
  box_decode-from_box b store ht hc owned =
      ap (λ o. o >>= λ (b, hc'). some (decode_box v b store ht hc')) (into_box-from_box b hc owned)

  -- Decoding the carrier of an encoded box gives a box with the same value, and leaves the heap of the
  -- carriers as it was before encoding.
  pub box_decode-box_encode :
      (b : Box T) (e : E) (store : D) (ht : Heap T) (hc : Heap C) (heap : IsHeap hc)
      → let (c, _, given) = box_encode v b e hc in
        (b' : Box T) × (d : D) × (ht' : Heap T) × (hc' : Heap C) × (box_decode v c store ht given
          ≡ some (some b', d, ht', hc'))
        × (b'.value ≡ b.value)
        × (hc'.raw ≡ hc.raw)
  unfolding box_encode decode_box rebox
  box_decode-box_encode b e store ht hc heap =
      let (lowered, hc1) = box_new (v.soft_encode b.value e).0 hc in
      let (owned, frame) = box_new-IsOwned (v.soft_encode b.value e).0 hc heap in
      let (b', ht') = box_new b.value ht in
      (
        b',
        (v.soft_decode lowered.value store).1,
        ht',
        hc1,
        box_decode-from_box lowered store ht hc1 owned
            ∙ ap
                (λ t.
                  let (o, ht') = rebox v t ht in
                  some (o, (v.soft_decode lowered.value store).1, ht', hc1))
                (law.decode_encode b.value e store),
        refl,
        frame,
      )

  box_is_valid-from_box :
      (b : Box C) (hc : Heap C) (owned : IsOwned (as_vec b) hc)
      → let (c, given) = from_box b hc in box_is_valid v c given ≡ some (v.is_valid b.value)
  unfolding box_is_valid is_null from_box
  box_is_valid-from_box b hc owned =
      rw (not_null b.address owned.0)
        (ap (λ o. o >>= λ c. some (v.is_valid c)) (read_box-from_box b hc owned))

  box_decode_stable-from_box :
      (b : Box C) (hc : Heap C) (owned : IsOwned (as_vec b) hc) (valid : Bool)
      (e : v.is_valid b.value ≡ valid)
      → let (c, given) = from_box b hc in
        box_decode_stable v c given ≡ box_decode_checked v valid c given
  unfolding box_decode_stable
  box_decode_stable-from_box b hc owned valid e =
      let (c, given) = from_box b hc in
      ap (λ o. o >>= λ valid. box_decode_checked v valid c given) (box_is_valid-from_box b hc owned)
      ∙ ap (λ valid. box_decode_checked v valid c given) e

  retype_box_lem :
      (address : ℕ) (t : Option T) (hc : Heap C) (decoded : is_some t ≡ true)
      → (b : Box T) × (retype_box v address t hc ≡ some (some b, hc))
  unfolding retype_box
  retype_box_lem address none hc decoded = cc
  retype_box_lem address (some t) hc decoded = (record { address = address; value = t }, refl)

  -- The carrier of an owned box, whose layout is stable: a valid one is taken over; where the value is
  -- not valid the answer is `None` and its allocation stays behind the pointer.
  pub box_decode_stable_leaks :
      (b : Box C) (hc : Heap C) (owned : IsOwned (as_vec b) hc)
      → let (c, given) = from_box b hc in
        (v.is_valid b.value ≡ true
          → (b' : Box T) × (box_decode_stable v c given ≡ some (some b', hc)))
        × (v.is_valid b.value ≡ false
            → (box_decode_stable v c given ≡ some (none, given))
              × (is_some (given.raw b.address) ≡ true))
  unfolding box_decode_checked box_decode_unchecked
  box_decode_stable_leaks b hc owned =
      let (c, given) = from_box b hc in
      (
        (λ valid.
            let (t, run) =
              retype_box_lem b.address (v.soft_decode b.value v.decode_default).0 hc
                (law.decode_valid b.value v.decode_default ∙ valid) in
            (
              t,
              box_decode_stable-from_box b hc owned true valid
                  ∙ (ap
                        (λ o. o >>= λ (b, hc').
                          retype_box v b.address (v.soft_decode b.value v.decode_default).0 hc')
                        (box_from_raw-from_box b hc owned)
                      ∙ run),
            )),
        λ invalid. (box_decode_stable-from_box b hc owned false invalid, from_box_raw b hc),
      )
