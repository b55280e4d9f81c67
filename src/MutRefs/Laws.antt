-- ===== src/MutRefs/Laws.antt =====
-- The decoders of `&mut` references read what was encoded, and write nothing.
use co.Prelude.{
  Bool, true, false, Option, none, some, map_some, Result, ok, err, ◌≡◌, ◌∙◌, refl, ap,
}
use co.Conv.{Niche}
use co.Store.{option_store, option_result_store, drop_option}
use co.COption.{c_option_new, into_option}
use co.CResult.{c_result_new, into_result}
use co.Refs.{ok_of, err_of, ok_or_default, err_or_default}
use co.MutRefs.{
  MutConv, insert_field, option_mut_payload, option_mut, niche_mut_tested, niche_mut,
  niche_option_mut, result_ok_mut, result_err_mut, result_mut_payload, result_mut,
}

-- The contract, for what is read from the memory: decoding gives the encoded value back, whatever the
-- field stores held, and neither it nor a drop of the stores changes what is read.
pub record IsMutConv {ω ρ κ σ ξ} {W : Type ω} {R : Type ρ} {C : Type κ} {S : Type σ} {X : Type ξ}
    (read : W → X) (v : MutConv W R C S) : Type (ω ⊔ ρ ⊔ κ ⊔ σ ⊔ ξ) where
  pub decode_encode : (r : R) (s : S) (w : W) → (v.decode_fields (v.encode_move r) s w).0 ≡ some r
  pub decode_frame : (c : C) (s : S) (w : W) → read (v.decode_fields c s w).1.1 ≡ read w
  pub drop_frame : (s : S) (w : W) → read (v.decode_store.drop s w) ≡ read w

module _ {ω ℓ κ σ ξ} {W : Type ω} {T : Type ℓ} {C : Type κ} {D : Type σ} {X : Type ξ} (read : W → X)
    (v : MutConv W T C D) (law : IsMutConv read v) where
  option_drop-frame :
      (s : Option D) (w : W) → read ((option_store v.decode_store).drop s w) ≡ read w
  unfolding option_store drop_option
  option_drop-frame none w = refl
  option_drop-frame (some d) w = law.drop_frame d w

  insert_field_lem :
      (t : T) (s : Option D) (w : W) → (insert_field v (v.encode_move t) s w).0 ≡ some t
  unfolding insert_field
  insert_field_lem t s w =
      law.decode_encode t v.decode_store.default ((option_store v.decode_store).drop s w)

  insert_field-frame : (c : C) (s : Option D) (w : W) → read (insert_field v c s w).1.1 ≡ read w
  unfolding insert_field
  insert_field-frame c s w =
      law.decode_frame c v.decode_store.default ((option_store v.decode_store).drop s w)
      ∙ option_drop-frame s w

  option_mut-back :
      (zeroed : C) (o : Option T) (s : Option D) (w : W)
      → ((option_mut v zeroed).decode_fields ((option_mut v zeroed).encode_move o) s w).0 ≡ some o
  unfolding option_mut option_mut_payload c_option_new into_option
  option_mut-back zeroed none s w = refl
  option_mut-back zeroed (some t) s w = ap (map_some some) (insert_field_lem t s w)

  payload-frame :
      (c : Option (Option C)) (s : Option D) (w : W)
      → read (option_mut_payload v c s w).1.1 ≡ read w
  unfolding option_mut_payload
  payload-frame none s w = refl
  payload-frame (some none) s w = option_drop-frame s w
  payload-frame (some (some c)) s w = insert_field-frame c s w

  -- Option by a tag.
  pub option_mut-IsMutConv : (zeroed : C) → IsMutConv read (option_mut v zeroed)
  unfolding option_mut
  option_mut-IsMutConv zeroed = record {
    decode_encode = λ o s w. option_mut-back zeroed o s w;
    decode_frame = λ c s w. payload-frame (into_option c) s w;
    drop_frame = λ s w. option_drop-frame s w;
  }

  module _ (n : Niche C) (found : n.is_niche n.niche ≡ true)
      (free : (t : T) → n.is_niche (v.encode_move t) ≡ false) where
    niche_mut-back :
        (o : Option T) (s : Option D) (w : W)
        → ((niche_mut v n).decode_fields ((niche_mut v n).encode_move o) s w).0 ≡ some o
    unfolding niche_mut niche_mut_tested
    niche_mut-back none s w = rw (found) refl
    niche_mut-back (some t) s w = rw (free t) (ap (map_some some) (insert_field_lem t s w))

    tested-frame :
        (b : Bool) (c : C) (s : Option D) (w : W) → read (niche_mut_tested v b c s w).1.1 ≡ read w
    unfolding niche_mut_tested
    tested-frame true c s w = option_drop-frame s w
    tested-frame false c s w = insert_field-frame c s w

    -- Option through a niche that no encoded payload is.
    pub niche_option_mut-IsMutConv : IsMutConv read (niche_option_mut v n)
    unfolding niche_option_mut niche_mut
    niche_option_mut-IsMutConv = record {
      decode_encode = λ o s w. niche_mut-back o s w;
      decode_frame = λ c s w. tested-frame (n.is_niche c.carrier) c.carrier s w;
      drop_frame = λ s w. option_drop-frame s w;
    }

    module _ {φ} {F : Type φ} (absent : F) (single : (f : F) → absent ≡ f) where
      ok_back : (r : Result T F) → ok_or_default absent (ok_of r) ≡ r
      unfolding ok_of ok_or_default
      ok_back (ok t) = refl
      ok_back (err f) = ap err (single f)

      err_back : (r : Result F T) → err_or_default absent (err_of r) ≡ r
      unfolding err_of err_or_default
      err_back (ok f) = ap ok (single f)
      err_back (err t) = refl

      -- Result through the niche of its value, for an error type of one value.
      pub result_ok_mut-IsMutConv : IsMutConv read (result_ok_mut v absent n)
      unfolding result_ok_mut niche_mut
      result_ok_mut-IsMutConv = record {
        decode_encode = λ r s w.
            ap (map_some (ok_or_default absent)) (niche_mut-back (ok_of r) s w)
            ∙ ap some (ok_back r);
        decode_frame = λ c s w. tested-frame (n.is_niche c.carrier) c.carrier s w;
        drop_frame = λ s w. option_drop-frame s w;
      }

      -- The same through the niche of its error, for a value type of one value.
      pub result_err_mut-IsMutConv : IsMutConv read (result_err_mut v absent n)
      unfolding result_err_mut niche_mut
      result_err_mut-IsMutConv = record {
        decode_encode = λ r s w.
            ap (map_some (err_or_default absent)) (niche_mut-back (err_of r) s w)
            ∙ ap some (err_back r);
        decode_frame = λ c s w. tested-frame (n.is_niche c.carrier) c.carrier s w;
        drop_frame = λ s w. option_drop-frame s w;
      }

module _ {ω ℓ κ σ φ δ ψ ξ} {W : Type ω} {T : Type ℓ} {C : Type κ} {D : Type σ} {F : Type φ}
    {B : Type δ} {G : Type ψ} {X : Type ξ} (read : W → X) (v : MutConv W T C D)
    (u : MutConv W F B G) (v_law : IsMutConv read v) (u_law : IsMutConv read u) where
  result_drop-frame :
      (s : Option (Result D G)) (w : W)
      → read ((option_result_store v.decode_store u.decode_store).drop s w) ≡ read w
  unfolding option_result_store drop_option option_store
  result_drop-frame none w = refl
  result_drop-frame (some (ok d)) w = v_law.drop_frame d w
  result_drop-frame (some (err g)) w = u_law.drop_frame g w

  result_mut-back :
      (r : Result T F) (s : Option (Result D G)) (w : W)
      → ((result_mut v u).decode_fields ((result_mut v u).encode_move r) s w).0 ≡ some r
  unfolding result_mut result_mut_payload c_result_new into_result
  result_mut-back (ok t) s w = ap (map_some ok) (v_law.decode_encode t _ _)
  result_mut-back (err e) s w = ap (map_some err) (u_law.decode_encode e _ _)

  result-frame :
      (c : Option (Result C B)) (s : Option (Result D G)) (w : W)
      → read (result_mut_payload v u c s w).1.1 ≡ read w
  unfolding result_mut_payload
  result-frame none s w = refl
  result-frame (some (ok c)) s w = v_law.decode_frame c _ _ ∙ result_drop-frame s w
  result-frame (some (err c)) s w = u_law.decode_frame c _ _ ∙ result_drop-frame s w

  -- Result by a tag.
  pub result_mut-IsMutConv : IsMutConv read (result_mut v u)
  unfolding result_mut
  result_mut-IsMutConv = record {
    decode_encode = λ r s w. result_mut-back r s w;
    decode_frame = λ c s w. result-frame (into_result c) s w;
    drop_frame = λ s w. result_drop-frame s w;
  }
