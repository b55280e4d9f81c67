-- ===== src/CResult/Order.antt =====
-- The order of the result carriers, against that of the results that they encode and the contract of orders.
use co.Prelude.{ℕ, zero, suc, Bool, true, Option, some, ◌≡◌, ◌↔◌, refl, ap, arith, Result, ok, err}
use co.Conv.{Conv}
use co.Primitive.{Ordering, less, equal, greater}
use co.StableResult.{StableResult}
use co.CResult.{
  CResult, stable_result_conv, c_result_eq_tags, c_result_eq, c_result_cmp_tags, c_result_cmp,
}

-- The order of two results when the variants are taken the other way round.
abbrev pub swapped_cmp {ℓ κ} :
    {T : Type ℓ} {F : Type κ}
    → (T → T → Option Ordering)
    → (F → F → Option Ordering)
    → StableResult T F
    → StableResult T F
    → Option Ordering
swapped_cmp cmp err_cmp (StableResult.ok a) (StableResult.ok b) = cmp a b
swapped_cmp cmp err_cmp (StableResult.ok a) (StableResult.err b) = some greater
swapped_cmp cmp err_cmp (StableResult.err a) (StableResult.ok b) = some less
swapped_cmp cmp err_cmp (StableResult.err a) (StableResult.err b) = err_cmp a b

module _ {ℓ ℓ' κ κ' μ μ' ν ν'} {T : Type ℓ} {F : Type ℓ'} {C : Type κ} {C' : Type κ'} {E : Type μ}
    {E' : Type μ'} {D : Type ν} {D' : Type ν'} (v : Conv T C E D) (w : Conv F C' E' D')
    (cmp : T → T → Option Ordering) (err_cmp : F → F → Option Ordering)
    (c_cmp : C → C → Option Ordering) (c_err_cmp : C' → C' → Option Ordering) where
  -- Where encoding keeps the order of payloads, the carriers of results compare with every `Err`
  -- below every `Ok`.
  pub c_result_cmp-encode :
      ((a b : T) (e e' : E) → c_cmp (v.soft_encode a e).0 (v.soft_encode b e').0 ≡ cmp a b)
      → ((a b : F) (e e' : E')
          → c_err_cmp (w.soft_encode a e).0 (w.soft_encode b e').0 ≡ err_cmp a b)
      → (a b : StableResult T F) (e e' : Option (Result E E'))
      → let u = stable_result_conv v w in
        c_result_cmp c_cmp c_err_cmp (u.soft_encode a e).0 (u.soft_encode b e').0
        ≡ swapped_cmp cmp err_cmp a b
  unfolding stable_result_conv c_result_cmp
  c_result_cmp-encode h k (StableResult.ok a) (StableResult.ok b) e e' =
      h a b v.encode_default v.encode_default
  c_result_cmp-encode h k (StableResult.ok a) (StableResult.err b) e e' = refl
  c_result_cmp-encode h k (StableResult.err a) (StableResult.ok b) e e' = refl
  c_result_cmp-encode h k (StableResult.err a) (StableResult.err b) e e' =
      k a b w.encode_default w.encode_default

-- What the standard library asks of `PartialEq` and `PartialOrd`: two values are equal exactly if they
-- compare as equal, one is below another exactly if the other is above it, and each of the three
-- answers is transitive.
pub record IsPartialOrd {κ} {C : Type κ} (IsEqual : C → C → Type 0) (cmp : C → C → Option Ordering)
    : Type κ where
  pub equal_iff : (a b : C) → IsEqual a b ↔ (cmp a b ≡ some equal)
  pub less_iff : (a b : C) → (cmp a b ≡ some less) ↔ (cmp b a ≡ some greater)
  pub trans :
      (o : Ordering) (a b c : C) (ab : cmp a b ≡ some o) (bc : cmp b c ≡ some o) → cmp a c ≡ some o

module _ {κ κ'} {C : Type κ} {D : Type κ'} (eq : C → C → Bool) (err_eq : D → D → Bool)
    (cmp : C → C → Option Ordering) (err_cmp : D → D → Option Ordering)
    (ok_law : IsPartialOrd (λ a b. eq a b ≡ true) cmp)
    (err_law : IsPartialOrd (λ a b. err_eq a b ≡ true) err_cmp) where
  abbrev cmp_tags : ℕ → ℕ → Result C D → Result C D → Option Ordering
  cmp_tags s t a b = c_result_cmp_tags cmp err_cmp s t a b

  tags_equal :
      (s t : ℕ) (a b : Result C D)
      → (c_result_eq_tags eq err_eq s t a b ≡ some true) ↔ (cmp_tags s t a b ≡ some equal)
  unfolding c_result_eq_tags c_result_cmp_tags
  tags_equal zero zero (ok a) (ok b) =
      let law = ok_law.equal_iff a b in (λ h. law.0 (ground (arith, h)), λ h. ap some (law.1 h))
  tags_equal zero zero (ok a) (err b) = ground arith
  tags_equal zero zero (err a) b = ground arith
  tags_equal zero (suc zero) a b = ground arith
  tags_equal zero (suc (suc t)) a b = ground arith
  tags_equal (suc zero) zero a b = ground arith
  tags_equal (suc zero) (suc zero) (err a) (err b) =
      let law = err_law.equal_iff a b in (λ h. law.0 (ground (arith, h)), λ h. ap some (law.1 h))
  tags_equal (suc zero) (suc zero) (err a) (ok b) = ground arith
  tags_equal (suc zero) (suc zero) (ok a) b = ground arith
  tags_equal (suc zero) (suc (suc t)) a b = ground arith
  tags_equal (suc (suc s)) t a b = ground arith

  tags_less :
      (s t : ℕ) (a b : Result C D)
      → (cmp_tags s t a b ≡ some less) ↔ (cmp_tags t s b a ≡ some greater)
  unfolding c_result_cmp_tags
  tags_less zero zero (ok a) (ok b) = ok_law.less_iff a b
  tags_less zero zero (ok a) (err b) = ground arith
  tags_less zero zero (err a) (ok b) = ground arith
  tags_less zero zero (err a) (err b) = ground arith
  tags_less zero (suc zero) a b = ground arith
  tags_less zero (suc (suc t)) a b = ground arith
  tags_less (suc zero) zero a b = ground arith
  tags_less (suc zero) (suc zero) (err a) (err b) = err_law.less_iff a b
  tags_less (suc zero) (suc zero) (err a) (ok b) = ground arith
  tags_less (suc zero) (suc zero) (ok a) (err b) = ground arith
  tags_less (suc zero) (suc zero) (ok a) (ok b) = ground arith
  tags_less (suc zero) (suc (suc t)) a b = ground arith
  tags_less (suc (suc s)) zero a b = ground arith
  tags_less (suc (suc s)) (suc zero) a b = ground arith
  tags_less (suc (suc s)) (suc (suc t)) a b = ground arith

  ok_trans :
      (o : Ordering) (a b c : Result C D) (ab : cmp_tags 0 0 a b ≡ some o)
      (bc : cmp_tags 0 0 b c ≡ some o)
      → cmp_tags 0 0 a c ≡ some o
  unfolding c_result_cmp_tags
  ok_trans o (ok a) (ok b) (ok c) ab bc = ok_law.trans o a b c ab bc
  ok_trans o (ok a) (ok b) (err c) ab bc = cc
  ok_trans o (ok a) (err b) c ab bc = cc
  ok_trans o (err a) b c ab bc = cc

  err_trans :
      (o : Ordering) (a b c : Result C D) (ab : cmp_tags 1 1 a b ≡ some o)
      (bc : cmp_tags 1 1 b c ≡ some o)
      → cmp_tags 1 1 a c ≡ some o
  unfolding c_result_cmp_tags
  err_trans o (err a) (err b) (err c) ab bc = err_law.trans o a b c ab bc
  err_trans o (err a) (err b) (ok c) ab bc = cc
  err_trans o (err a) (ok b) c ab bc = cc
  err_trans o (ok a) b c ab bc = cc

  tags_trans :
      (o : Ordering) (r s t : ℕ) (a b c : Result C D) (ab : cmp_tags r s a b ≡ some o)
      (bc : cmp_tags s t b c ≡ some o)
      → cmp_tags r t a c ≡ some o
  unfolding c_result_cmp_tags
  tags_trans o zero zero zero a b c ab bc = ok_trans o a b c ab bc
  tags_trans o (suc zero) (suc zero) (suc zero) a b c ab bc = err_trans o a b c ab bc
  tags_trans o zero zero (suc zero) a b c ab bc = bc
  tags_trans o (suc zero) (suc zero) zero a b c ab bc = bc
  tags_trans o zero (suc zero) (suc zero) a b c ab bc = ab
  tags_trans o (suc zero) zero zero a b c ab bc = ab
  tags_trans o zero (suc zero) zero a b c ab bc = cc
  tags_trans o (suc zero) zero (suc zero) a b c ab bc = cc
  tags_trans o zero zero (suc (suc t)) a b c ab bc = cc
  tags_trans o zero (suc zero) (suc (suc t)) a b c ab bc = cc
  tags_trans o (suc zero) zero (suc (suc t)) a b c ab bc = cc
  tags_trans o (suc zero) (suc zero) (suc (suc t)) a b c ab bc = cc
  tags_trans o zero (suc (suc s)) t a b c ab bc = cc
  tags_trans o (suc zero) (suc (suc s)) t a b c ab bc = cc
  tags_trans o (suc (suc r)) s t a b c ab bc = cc

  -- Where the comparisons of the payloads keep the contract of `PartialEq` and `PartialOrd`, so do those
  -- of the carriers of results, on all carriers: two are equal exactly if they compare as equal, one is
  -- below another exactly if the other is above it, and each of the three answers is transitive.
  pub c_result_cmp-IsPartialOrd :
      IsPartialOrd
        (λ (a b : CResult C D). c_result_eq eq err_eq a b ≡ some true)
        (c_result_cmp cmp err_cmp)
  unfolding c_result_eq c_result_cmp
  c_result_cmp-IsPartialOrd = record {
    equal_iff = λ a b. tags_equal a.tag b.tag a.payload b.payload;
    less_iff = λ a b. tags_less a.tag b.tag a.payload b.payload;
    trans = λ o a b c ab bc. tags_trans o a.tag b.tag c.tag a.payload b.payload c.payload ab bc;
  }
