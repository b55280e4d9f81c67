-- ===== src/Compound/Laws.antt =====
-- Pairs and arrays keep the conversion contract of their elements.
use co.Prelude.{ℕ, zero, suc, Bool, true, false, some, is_some, ◌≡◌, refl, arith}
use co.Conv.{Conv, Niche, IsConv, IsNiche}
use co.Compound.{
  pair_conv, first_niche, second_niche, Array, nil, cons, repeat, all, decode_elements,
  unwrap_elements, array_conv, array_niche, encode_array_elements, decode_array_elements, cons_some,
  decode_second,
}

module _ {ℓ ℓ' κ κ' μ μ' ν ν'} {T : Type ℓ} {T' : Type ℓ'} {C : Type κ} {C' : Type κ'} {E : Type μ}
    {E' : Type μ'} {D : Type ν} {D' : Type ν'} (a : Conv T C E D) (b : Conv T' C' E' D') where
  pair-decode_encode :
      (la : IsConv a) (lb : IsConv b) (t : T × T') (e : E × E') (d : D × D')
      → let w = pair_conv a b in (w.soft_decode (w.soft_encode t e).0 d).0 ≡ some t
  unfolding pair_conv decode_second
  pair-decode_encode la lb t e d =
      rw (la.decode_encode t.0 e.0 d.0) (rw (lb.decode_encode t.1 e.1 d.1) refl)

  -- Where both elements keep the conversion contract, so does the pair.
  pub pair-IsConv : (la : IsConv a) (lb : IsConv b) → IsConv (pair_conv a b)
  unfolding pair_conv
  pair-IsConv la lb = record {
    decode_encode = pair-decode_encode la lb;
    decode_valid = λ c d. ground (arith, la.decode_valid c.first d.0, lb.decode_valid c.second d.1);
  }

  -- Where both elements have a niche, either is a niche of the pair.
  pub pair-IsNiche :
      (na : Niche C) (nb : Niche C') (la : IsNiche a na) (lb : IsNiche b nb) (zeroed : C)
      (zeroed' : C')
      → IsNiche (pair_conv a b) (first_niche na zeroed')
        × IsNiche (pair_conv a b) (second_niche nb zeroed)
  unfolding pair_conv first_niche second_niche
  pair-IsNiche na nb la lb zeroed zeroed' = (
    record { niche_found = la.niche_found; encode_ne_niche = λ t e. la.encode_ne_niche t.0 e.0 },
    record { niche_found = lb.niche_found; encode_ne_niche = λ t e. lb.encode_ne_niche t.1 e.1 },
  )

module _ {ℓ κ μ ν} {T : Type ℓ} {C : Type κ} {E : Type μ} {D : Type ν} (v : Conv T C E D) where
  array-decode_encode :
      {n : ℕ} (law : IsConv v) (ts : Array T n) (es : Array E n) (ds : Array D n)
      → (decode_array_elements v (encode_array_elements v ts es).0 ds).0 ≡ some ts
  unfolding encode_array_elements decode_array_elements decode_elements unwrap_elements cons_some
  array-decode_encode law nil nil nil = refl
  array-decode_encode law (cons t ts) (cons e es) (cons d ds) =
      rw (law.decode_encode t e d) (rw (array-decode_encode law ts es ds) refl)

  array-decode_valid :
      {n : ℕ} (law : IsConv v) (cs : Array C n) (ds : Array D n)
      → is_some (decode_array_elements v cs ds).0 ≡ all v.is_valid cs
  unfolding decode_array_elements decode_elements unwrap_elements cons_some all
  array-decode_valid law nil nil = refl
  array-decode_valid law (cons c cs) (cons d ds) =
      ground (arith, law.decode_valid c d, array-decode_valid law cs ds)

  -- Where the element keeps the conversion contract, so does an array of any length.
  pub array-IsConv : (law : IsConv v) (n : ℕ) → IsConv (array_conv v n)
  unfolding array_conv
  array-IsConv law n = record {
    decode_encode = array-decode_encode law;
    decode_valid = array-decode_valid law;
  }

  all-repeat : (p : C → Bool) (c : C) (ok : p c ≡ true) (n : ℕ) → all p (repeat c n) ≡ true
  unfolding all repeat
  all-repeat p c ok zero = refl
  all-repeat p c ok (suc n) = rw ok (all-repeat p c ok n)

  not_all :
      {n : ℕ} (w : Niche C) (free : IsNiche v w) (ts : Array T (suc n)) (es : Array E (suc n))
      → all w.is_niche (encode_array_elements v ts es).0 ≡ false
  unfolding all encode_array_elements
  not_all w free (cons t ts) (cons e es) = rw (free.encode_ne_niche t e) refl

  -- A niche of the element, repeated, is a niche of every array that is not empty.
  pub array-IsNiche :
      (w : Niche C) (free : IsNiche v w) (n : ℕ) → IsNiche (array_conv v (suc n)) (array_niche w n)
  unfolding array_conv array_niche
  array-IsNiche w free n = record {
    niche_found = all-repeat w.is_niche w.niche free.niche_found (suc n);
    encode_ne_niche = not_all w free;
  }
