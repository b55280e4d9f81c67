-- ===== src/VecConv.antt =====
-- The conversions of vectors and strings in src/stored.rs, src/vec.rs and src/utf8.rs: each element by
-- its conversion into a new allocation, or the allocation itself where the layouts agree. The elements
-- of a vector stand in a heap of their own, and their carriers in another.
pub mod Laws
use co.Prelude.{
  ℕ, Bool, true, false, ◌&&◌, ◌||◌, Option, none, some, map_some, List, [], ◌∷◌, ltb, if◌then◌else◌,
  ◌>>=◌,
}
use co.Conv.{Conv, Niche}
use co.Alloc.{Heap, RustVec, with_capacity}
use co.Vector.{Header, c_vec_null, is_null, header_from, rust_from, into_vec, deref}

-- Consing where both are there.
unfoldable pub cons_some {ℓ} : {A : Type ℓ} → Option A → Option (List A) → Option (List A)
cons_some (some x) (some xs) = some (x ∷ xs)
cons_some _ _ = none

-- `iter().all(…)`.
unfoldable pub all {ℓ} : {A : Type ℓ} → (A → Bool) → List A → Bool
all p [] = true
all p (x ∷ xs) = p x && all p xs

-- `Niche for Vec` and `Niche for String`: a null pointer.
unfoldable pub vec_niche : Niche Header
unfolding c_vec_null is_null
vec_niche = record { niche = c_vec_null; is_niche = is_null }

module _ {ℓ κ μ ν} {T : Type ℓ} {C : Type κ} {E : Type μ} {D : Type ν} (v : Conv T C E D) where
  -- `encode_vec_elements`: every element with a default store.
  unfoldable pub encode_vec_elements : List T → List C × List E
  encode_vec_elements [] = ([], [])
  encode_vec_elements (t ∷ ts) =
      let (c, e) = v.soft_encode t v.encode_default in
      let (cs, es) = encode_vec_elements ts in (c ∷ cs, e ∷ es)

  -- `decode_vec_elements`: every element is decoded, and one failure fails them all.
  unfoldable pub decode_vec_elements : List C → Option (List T) × List D
  unfolding cons_some
  decode_vec_elements [] = (some [], [])
  decode_vec_elements (c ∷ cs) =
      let (t, d) = v.soft_decode c v.decode_default in
      let (ts, ds) = decode_vec_elements cs in (cons_some t ts, d ∷ ds)

  encode_owned : RustVec T → Heap T → Heap C → Header × List E × Heap T × Heap C
  encode_owned w ht hc =
      let (cs, es) = encode_vec_elements w.items in
      let (encoded, hc') = with_capacity w.capacity cs hc in
      let (c, hc'') = header_from encoded hc' in (c, es, ht, hc'')

  -- `EncodeMove::soft_encode` for `Vec`: the elements move into a vector of carriers with the same
  -- capacity, which the carrier is made of. The allocation of the source is freed.
  unfoldable pub vec_encode : Header → Heap T → Heap C → Option (Header × List E × Heap T × Heap C)
  unfolding rust_from encode_owned encode_vec_elements with_capacity header_from
  vec_encode self ht hc = rust_from self ht >>= λ (w, ht'). some (encode_owned w ht' hc)

  -- `map(Into::into)`.
  unfoldable pub into_header : ℕ → Option (List T) → Heap T → Option Header × Heap T
  unfolding with_capacity header_from
  into_header capacity none ht = (none, ht)
  into_header capacity (some ts) ht =
      let (decoded, ht') = with_capacity capacity ts ht in
      let (self, ht'') = header_from decoded ht' in (some self, ht'')

  decode_owned :
      Option (RustVec C) → List D → Heap T → Heap C → Option Header × List D × Heap T × Heap C
  decode_owned none store ht hc = (none, store, ht, hc)
  decode_owned (some w) store ht hc =
      let (ts, ds) = decode_vec_elements w.items in
      let (self, ht') = into_header w.capacity ts ht in (self, ds, ht', hc)

  -- `DecodeMove::soft_decode` for `Vec` of elements without a stable layout: `into_vec` takes the
  -- allocation back, which is freed whether or not the elements decode.
  unfoldable pub vec_decode :
      Header → List D → Heap T → Heap C → Option (Option Header × List D × Heap T × Heap C)
  unfolding into_vec decode_owned decode_vec_elements into_header
  vec_decode source store ht hc =
      into_vec source hc >>= λ (w, hc'). some (decode_owned w store ht hc')

  -- `AbiCompatibleValidate::is_valid` for `Vec`: it reads the elements through the pointer.
  unfoldable pub vec_is_valid : Header → Heap C → Option Bool
  unfolding is_null deref all
  vec_is_valid c hc =
      if is_null c || ltb c.capacity c.len
      then some false
      else (deref c hc >>= λ cs. some (all v.is_valid cs))

  -- Reading the bits of every element as a value: undefined for one that is not valid.
  unfoldable pub transmute_elements : List C → Option (List T)
  unfolding cons_some
  transmute_elements [] = some []
  transmute_elements (c ∷ cs) =
      cons_some (v.soft_decode c v.decode_default).0 (transmute_elements cs)

  retype : RustVec C → List T → Heap T → Heap C → Option Header × Heap T × Heap C
  retype w ts ht hc =
      let retyped : RustVec T = record { address = w.address; items = ts; capacity = w.capacity } in
      let (self, ht') = header_from retyped ht in (some self, ht', hc)

  -- `transmute_owned`: the same pointer, length and capacity, for elements of the other type.
  unfoldable pub transmute_owned :
      Header → Heap T → Heap C → Option (Option Header × Heap T × Heap C)
  unfolding rust_from transmute_elements retype header_from
  transmute_owned source ht hc = rust_from source hc >>= λ (w, hc').
      transmute_elements w.items >>= λ ts. some (retype w ts ht hc')

  stable_decode_checked : Bool → Header → Heap T → Heap C → Option (Option Header × Heap T × Heap C)
  stable_decode_checked true source ht hc = transmute_owned source ht hc
  stable_decode_checked false source ht hc = into_vec source hc >>= λ (w, hc'). some (none, ht, hc')

  -- `DecodeMove::soft_decode` for `Vec` of elements with a stable layout: an allocation with a carrier
  -- that is not valid is reclaimed.
  unfoldable pub vec_decode_stable :
      Header → Heap T → Heap C → Option (Option Header × Heap T × Heap C)
  unfolding vec_is_valid stable_decode_checked transmute_owned into_vec
  vec_decode_stable source ht hc =
      vec_is_valid source hc >>= λ valid. stable_decode_checked valid source ht hc

module _ {ℓ} {S : Type ℓ} (into_bytes : S → List ℕ) (from_utf8 : List ℕ → Option S) where
  -- A `String` is a vector of bytes: `Utf8String::from_string`, for a string with the address and the
  -- capacity of its allocation.
  unfoldable pub string_encode : ℕ → S → ℕ → Heap ℕ → Header × Heap ℕ
  unfolding header_from
  string_encode address s capacity h =
      header_from (record { address = address; items = into_bytes s; capacity = capacity }) h

  string_from : Option (RustVec ℕ) → Option S
  string_from none = none
  string_from (some w) = from_utf8 w.items

  -- `DecodeMove::soft_decode` for `String`.
  unfoldable pub string_decode : Header → Heap ℕ → Option (Option S × Heap ℕ)
  unfolding into_vec string_from
  string_decode source h = into_vec source h >>= λ (w, h'). some (string_from w, h')
