-- ===== src/VecConv/Laws.antt =====
-- A vector comes back element by element, and decoding one frees or hands on its allocation on every
-- path.
use co.Prelude.{
  ℕ, suc, ◌≤◌, Bool, true, false, ◌&&◌, Option, none, some, is_some, List, [], ◌∷◌, length, ◌>>=◌,
  ◌≡◌, ◌∙◌, refl, ap, arith,
}
use co.Conv.{Conv, IsConv}
use co.Alloc.Laws.{with_capacity-IsOwned}
use co.Alloc.{Heap, RustVec, with_capacity, IsOwned, IsHeap}
use co.Vector.{Header, header_from}
use co.Vector.Laws.{
  rust_from-header_from, into_vec-header_from, deref-header_from, header_from_accepted,
}
use co.VecConv.{
  cons_some, all, encode_vec_elements, decode_vec_elements, vec_encode, encode_owned, into_header,
  decode_owned, vec_decode, vec_is_valid, transmute_elements, retype, transmute_owned,
  stable_decode_checked, vec_decode_stable, string_encode, string_from, string_decode,
}

is_some-cons_some {ℓ} :
    {A : Type ℓ} (t : Option A) (ts : Option (List A))
    → is_some (cons_some t ts) ≡ is_some t && is_some ts
unfolding cons_some
is_some-cons_some none ts = refl
is_some-cons_some (some t) none = refl
is_some-cons_some (some t) (some ts) = refl

module _ {ℓ κ μ ν} {T : Type ℓ} {C : Type κ} {E : Type μ} {D : Type ν} (v : Conv T C E D)
    (law : IsConv v) where
  length-encode_vec_elements : (ts : List T) → length (encode_vec_elements v ts).0 ≡ length ts
  unfolding encode_vec_elements
  length-encode_vec_elements [] = refl
  length-encode_vec_elements (t ∷ ts) = ap suc (length-encode_vec_elements ts)

  decode-encode_vec_elements :
      (ts : List T) → (decode_vec_elements v (encode_vec_elements v ts).0).0 ≡ some ts
  unfolding encode_vec_elements decode_vec_elements cons_some
  decode-encode_vec_elements [] = refl
  decode-encode_vec_elements (t ∷ ts) =
      rw (law.decode_encode t v.encode_default v.decode_default, decode-encode_vec_elements ts) refl

  -- A vector of carriers decodes exactly if each of them is valid.
  pub decode_vec_elements-all :
      (cs : List C)
      → (is_some (decode_vec_elements v cs).0 ≡ all v.is_valid cs)
        × (is_some (transmute_elements v cs) ≡ all v.is_valid cs)
  unfolding decode_vec_elements transmute_elements all
  decode_vec_elements-all [] = (refl, refl)
  decode_vec_elements-all (c ∷ cs) =
      let first = law.decode_valid c v.decode_default in
      let (rest, bits) = decode_vec_elements-all cs in
      (
        is_some-cons_some (v.soft_decode c v.decode_default).0 (decode_vec_elements v cs).0
            ∙ rw (first, rest) refl,
        is_some-cons_some (v.soft_decode c v.decode_default).0 (transmute_elements v cs)
            ∙ rw (first, bits) refl,
      )

  -- Decoding the carrier of an owned vector takes the allocation back.
  vec_decode-header_from :
      (w : RustVec C) (store : List D) (ht : Heap T) (hc : Heap C) (owned : IsOwned w hc)
      → let (c, given) = header_from w hc in
        vec_decode v c store ht given ≡ some (decode_owned v (some w) store ht hc)
  unfolding vec_decode
  vec_decode-header_from w store ht hc owned =
      ap (λ o. o >>= λ (w, hc'). some (decode_owned v w store ht hc'))
        (into_vec-header_from w hc owned)

  decode_owned_lem :
      (w : RustVec C) (store : List D) (ht : Heap T) (hc : Heap C) (ts : List T)
      (decoded : (decode_vec_elements v w.items).0 ≡ some ts)
      → let (w', ht') = with_capacity w.capacity ts ht in
        let (self, ht'') = header_from w' ht' in
        decode_owned v (some w) store ht hc
        ≡ (some self, (decode_vec_elements v w.items).1, ht'', hc)
  unfolding decode_owned into_header
  decode_owned_lem w store ht hc ts decoded =
      ap
        (λ o.
          let (self, ht') = into_header v w.capacity o ht in
          (self, (decode_vec_elements v w.items).1, ht', hc))
        decoded

  -- Where the element keeps the conversion contract, and an allocation has the capacity it is asked
  -- for: encoding leaves the source to the elements, and decoding the carrier gives a vector of the same
  -- elements and the same capacity; the allocation of the carrier is gone then.
  pub vec_decode-vec_encode :
      (w : RustVec T) (ht ht' : Heap T) (hc : Heap C) (owned : IsOwned w ht) (heap : IsHeap ht')
      (c_heap : IsHeap hc)
      → let (self, given) = header_from w ht in
        (c : Header) × (es : List E) × (hc' : Heap C) × (vec_encode v self given hc
          ≡ some (c, es, ht, hc'))
        × ((store : List D)
            → (w' : RustVec T) × (ds : List D) × (ht'' : Heap T) × (hc'' : Heap C) × (let (
              self', given',
            ) =
                  header_from w' ht'' in
                vec_decode v c store ht' hc' ≡ some (some self', ds, given', hc''))
              × (w'.items ≡ w.items)
              × (w'.capacity ≡ w.capacity)
              × (hc''.raw ≡ hc.raw))
  unfolding vec_encode encode_owned
  vec_decode-vec_encode w ht ht' hc owned heap c_heap =
      let cs = (encode_vec_elements v w.items).0 in
      let fits : length cs ≤ w.capacity =
        omega (arith, length-encode_vec_elements w.items, owned.1) in
      let (encoded, hc1) = with_capacity w.capacity cs hc in
      let (c_owned, heap1, frame, items, cap) =
        with_capacity-IsOwned w.capacity cs hc fits c_heap in
      let (c, hc2) = header_from encoded hc1 in
      let (w', ht1) = with_capacity encoded.capacity w.items ht' in
      let (t_owned, heap2, same, items', cap') =
        with_capacity-IsOwned encoded.capacity w.items ht' (omega (arith, cap, owned.1)) heap in
      (
        c,
        (encode_vec_elements v w.items).1,
        hc2,
        ap (λ o. o >>= λ (w, ht). some (encode_owned v w ht hc)) (rust_from-header_from w ht owned),
        λ store. (
          w',
          (decode_vec_elements v encoded.items).1,
          ht1,
          hc1,
          vec_decode-header_from encoded store ht' hc1 c_owned
              ∙ ap some (
                  decode_owned_lem encoded store ht' hc1 w.items (
                    ap (λ xs. (decode_vec_elements v xs).0) items
                    ∙ decode-encode_vec_elements w.items)),
          items',
          cap' ∙ cap,
          frame,
        ),
      )

  is_some-into_header :
      (capacity : ℕ) (ts : Option (List T)) (ht : Heap T)
      → is_some (into_header v capacity ts ht).0 ≡ is_some ts
  unfolding into_header
  is_some-into_header capacity none ht = refl
  is_some-into_header capacity (some ts) ht = refl

  vec_is_valid-header_from :
      (w : RustVec C) (hc : Heap C) (owned : IsOwned w hc)
      → let (c, given) = header_from w hc in vec_is_valid v c given ≡ some (all v.is_valid w.items)
  unfolding vec_is_valid
  vec_is_valid-header_from w hc owned =
      rw (header_from_accepted w hc owned)
        (ap (λ o. o >>= λ cs. some (all v.is_valid cs)) (deref-header_from w hc owned))

  checked_frees :
      (w : RustVec C) (ht : Heap T) (hc : Heap C) (owned : IsOwned w hc) (valid : Bool)
      (e : all v.is_valid w.items ≡ valid)
      → let (c, given) = header_from w hc in
        (o : Option Header) × (ht' : Heap T) × (stable_decode_checked v valid c ht given
          ≡ some (o, ht', hc))
        × (is_some o ≡ valid)
  unfolding stable_decode_checked transmute_owned retype
  checked_frees w ht hc owned false e = (
    none,
    ht,
    ap (λ o. o >>= λ (w, hc'). some (none, ht, hc')) (into_vec-header_from w hc owned),
    refl,
  )
  checked_frees w ht hc owned true e = retyped (transmute_elements v w.items) refl
    where
      retyped :
          (ts : Option (List T))
          → transmute_elements v w.items ≡ ts
          → let (c, given) = header_from w hc in
            (o : Option Header) × (ht' : Heap T) × (transmute_owned v c ht given
              ≡ some (o, ht', hc))
            × (is_some o ≡ true)
      retyped none bits = absurd (ground (arith, bits, (decode_vec_elements-all w.items).1, e))
      retyped (some ts) bits = (
        (retype v w ts ht hc).0,
        (retype v w ts ht hc).1,
        ap
              (λ o. o >>= λ (w, hc').
                transmute_elements v w.items >>= λ ts. some (retype v w ts ht hc'))
              (rust_from-header_from w hc owned)
            ∙ ap (λ ts. ts >>= λ ts. some (retype v w ts ht hc)) bits,
        refl,
      )

  stable_frees :
      (w : RustVec C) (ht : Heap T) (hc : Heap C) (owned : IsOwned w hc)
      → let (c, given) = header_from w hc in
        (o : Option Header) × (ht' : Heap T) × (vec_decode_stable v c ht given ≡ some (o, ht', hc))
        × (is_some o ≡ all v.is_valid w.items)
  unfolding vec_decode_stable
  stable_frees w ht hc owned =
      let (c, given) = header_from w hc in
      let (o, ht', run, answer) = checked_frees w ht hc owned (all v.is_valid w.items) refl in
      (
        o,
        ht',
        ap (λ o. o >>= λ valid. stable_decode_checked v valid c ht given)
              (vec_is_valid-header_from w hc owned)
            ∙ run,
        answer,
      )

  -- Decoding the carrier of an owned vector, without or with a stable element layout, answers a vector
  -- exactly if every element is valid, and no allocation of the carrier is left in either case.
  pub vec_decode_frees :
      (w : RustVec C) (store : List D) (ht : Heap T) (hc : Heap C) (owned : IsOwned w hc)
      → let (c, given) = header_from w hc in
        ((o : Option Header) × (ds : List D) × (ht' : Heap T) × (vec_decode v c store ht given
            ≡ some (o, ds, ht', hc))
          × (is_some o ≡ all v.is_valid w.items))
        × ((o : Option Header) × (ht' : Heap T) × (vec_decode_stable v c ht given
              ≡ some (o, ht', hc))
            × (is_some o ≡ all v.is_valid w.items))
  unfolding decode_owned
  vec_decode_frees w store ht hc owned = (
    (
      (decode_owned v (some w) store ht hc).0,
      (decode_owned v (some w) store ht hc).1,
      (decode_owned v (some w) store ht hc).2,
      vec_decode-header_from w store ht hc owned,
      is_some-into_header w.capacity (decode_vec_elements v w.items).0 ht
          ∙ (decode_vec_elements-all w.items).0,
    ),
    stable_frees w ht hc owned,
  )

module _ {ℓ} {S : Type ℓ} (into_bytes : S → List ℕ) (from_utf8 : List ℕ → Option S)
    (utf8 : (s : S) → from_utf8 (into_bytes s) ≡ some s) where
  string_from_vec :
      (w : RustVec ℕ) (h : Heap ℕ) (owned : IsOwned w h)
      → let (c, given) = header_from w h in
        string_decode into_bytes from_utf8 c given ≡ some (from_utf8 w.items, h)
  unfolding string_decode string_from
  string_from_vec w h owned =
      ap (λ o. o >>= λ (w, h'). some (string_from into_bytes from_utf8 w, h'))
        (into_vec-header_from w h owned)

  -- A string comes back from its carrier; the carrier of any other bytes decodes exactly if they are
  -- UTF-8; and the allocation is taken over or freed in each case.
  pub string_decode-string_encode :
      (address capacity : ℕ) (s : S) (w : RustVec ℕ) (h : Heap ℕ)
      (owned : IsOwned (record { address = address; items = into_bytes s; capacity = capacity }) h)
      (other : IsOwned w h)
      → (let (c, given) = string_encode into_bytes from_utf8 address s capacity h in
          string_decode into_bytes from_utf8 c given ≡ some (some s, h))
        × (let (c, given) = header_from w h in
            string_decode into_bytes from_utf8 c given ≡ some (from_utf8 w.items, h))
  unfolding string_encode
  string_decode-string_encode address capacity s w h owned other = (
    string_from_vec (record { address = address; items = into_bytes s; capacity = capacity }) h
          owned
        ∙ ap (λ o. some (o, h)) (utf8 s),
    string_from_vec w h other,
  )
