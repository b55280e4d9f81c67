-- ===== src/Compound.antt =====
-- The conversions of pairs (src/tuple.rs, for two elements) and of arrays (the structural fallbacks of
-- src/stored.rs and `ArrayStore` of src/sync.rs), and their niches (src/niche.rs).
pub mod Laws
use co.Prelude.{ℕ, zero, suc, Bool, true, false, ◌&&◌, Option, none, some, map_some}
use co.Conv.{Conv, Niche}

-- `struct Tuple2`.
pub record Tuple2 {κ λ'} (A : Type κ) (B : Type λ') : Type (κ ⊔ λ') where
  pub first : A
  pub second : B

module _ {ℓ ℓ' κ κ' μ μ' ν ν'} {T : Type ℓ} {T' : Type ℓ'} {C : Type κ} {C' : Type κ'} {E : Type μ}
    {E' : Type μ'} {D : Type ν} {D' : Type ν'} (a : Conv T C E D) (b : Conv T' C' E' D') where
  -- `EncodeMove::soft_encode` for `(A, B)`.
  unfoldable pub pair_encode : T × T' → E × E' → Tuple2 C C' × (E × E')
  pair_encode t store =
      let (c, e) = a.soft_encode t.0 store.0 in
      let (c', e') = b.soft_encode t.1 store.1 in (record { first = c; second = c' }, (e, e'))

  decode_second : Option T → C' → D → D' → Option (T × T') × (D × D')
  decode_second none c' d d' = (none, (d, d'))
  decode_second (some t) c' d d' =
      let (t', d'') = b.soft_decode c' d' in (map_some (λ u. (t, u)) t', (d, d''))

  -- `DecodeMove::soft_decode` for `(A, B)`: the first failure returns.
  unfoldable pub pair_decode : Tuple2 C C' → D × D' → Option (T × T') × (D × D')
  unfolding decode_second
  pair_decode source store =
      let (t, d) = a.soft_decode source.first store.0 in decode_second t source.second d store.1

  unfoldable pub pair_conv : Conv (T × T') (Tuple2 C C') (E × E') (D × D')
  unfolding pair_encode pair_decode
  pair_conv = record {
    encode_default = (a.encode_default, b.encode_default);
    soft_encode = pair_encode;
    decode_default = (a.decode_default, b.decode_default);
    soft_decode = pair_decode;
    is_valid = λ c. a.is_valid c.first && b.is_valid c.second;
  }

-- `Niche for (A, B)` where `A` has a niche; the other carrier is zeroed.
unfoldable pub first_niche {κ κ'} : {C : Type κ} {C' : Type κ'} → Niche C → C' → Niche (Tuple2 C C')
first_niche n zeroed = record {
  niche = record { first = n.niche; second = zeroed };
  is_niche = λ c. n.is_niche c.first;
}

-- `Niche for (A, B)` where only `B` has a niche.
unfoldable pub second_niche {κ κ'} :
    {C : Type κ} {C' : Type κ'} → Niche C' → C → Niche (Tuple2 C C')
second_niche n zeroed = record {
  niche = record { first = zeroed; second = n.niche };
  is_niche = λ c. n.is_niche c.second;
}

-- `[A; N]`.
pub data Array {ℓ} (A : Type ℓ) : ℕ → Type ℓ where
  nil : Array A zero
  cons : {n : ℕ} → A → Array A n → Array A (suc n)

unfoldable pub repeat {ℓ} : {A : Type ℓ} → A → (n : ℕ) → Array A n
repeat x zero = nil
repeat x (suc n) = cons x (repeat x n)

-- `iter().all`.
unfoldable pub all {ℓ} : {A : Type ℓ} {n : ℕ} → (A → Bool) → Array A n → Bool
all p nil = true
all p (cons x xs) = p x && all p xs

module _ {ℓ κ μ ν} {T : Type ℓ} {C : Type κ} {E : Type μ} {D : Type ν} (v : Conv T C E D) where
  -- `encode_array_elements`: each element with the store at its index.
  unfoldable pub encode_array_elements : {n : ℕ} → Array T n → Array E n → Array C n × Array E n
  encode_array_elements nil nil = (nil, nil)
  encode_array_elements (cons t ts) (cons e es) =
      let (c, e') = v.soft_encode t e in
      let (cs, es') = encode_array_elements ts es in (cons c cs, cons e' es')

  -- `source.map(…)` in `decode_array_elements`: every element is decoded.
  unfoldable pub decode_elements : {n : ℕ} → Array C n → Array D n → Array (Option T) n × Array D n
  decode_elements nil nil = (nil, nil)
  decode_elements (cons c cs) (cons d ds) =
      let (t, d') = v.soft_decode c d in
      let (ts, ds') = decode_elements cs ds in (cons t ts, cons d' ds')

  unfoldable pub cons_some : {n : ℕ} → Option T → Option (Array T n) → Option (Array T (suc n))
  cons_some (some t) (some ts) = some (cons t ts)
  cons_some _ _ = none

  -- `None` if any element is, else the array of them.
  unfoldable pub unwrap_elements : {n : ℕ} → Array (Option T) n → Option (Array T n)
  unfolding cons_some
  unwrap_elements nil = some nil
  unwrap_elements (cons t ts) = cons_some t (unwrap_elements ts)

  -- `decode_array_elements`.
  unfoldable pub decode_array_elements :
      {n : ℕ} → Array C n → Array D n → Option (Array T n) × Array D n
  unfolding decode_elements unwrap_elements
  decode_array_elements source store =
      let (ts, ds) = decode_elements source store in (unwrap_elements ts, ds)

  unfoldable pub array_conv : (n : ℕ) → Conv (Array T n) (Array C n) (Array E n) (Array D n)
  unfolding encode_array_elements decode_array_elements repeat all
  array_conv n = record {
    encode_default = repeat v.encode_default n;
    soft_encode = encode_array_elements;
    decode_default = repeat v.decode_default n;
    soft_decode = decode_array_elements;
    is_valid = all v.is_valid;
  }

-- `Niche for [R; N]`, for `N` of `suc n`: an empty array has no niche.
unfoldable pub array_niche {κ} : {C : Type κ} → Niche C → (n : ℕ) → Niche (Array C (suc n))
unfolding repeat all
array_niche v n = record { niche = repeat v.niche (suc n); is_niche = all v.is_niche }
