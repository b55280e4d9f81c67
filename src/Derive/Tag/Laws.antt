-- ===== src/Derive/Tag/Laws.antt =====
-- The tag type is large enough and the tags are those of the language.
use co.Prelude.{
  ℕ, suc, ◌+◌, ◌^◌, ◌%◌, ◌/◌, ◌≤◌, ◌<◌, ◌⊎◌, inl, inr, Option, none, some, List, [], ◌∷◌, ◌≡◌, ◌∙◌,
  sym, ap, refl, arith, cons_cong,
}
use native.Mathlib.Nat.{add-mod, mod-add-mod, zero-mod}
use co.Derive.Tag.{
  uint8, uint16, uint32, uint64, infer_repr, repr_type_bit_width, tag_exprs_from,
  enum_variant_tag_exprs, eval_tags, eval_tag,
}

infer_repr_cases :
    (n : ℕ)
    → ((infer_repr n ≡ uint8) × (n ≤ 256))
      ⊎ ((infer_repr n ≡ uint16) × (n ≤ 65536) × (256 < n))
      ⊎ ((infer_repr n ≡ uint32) × (n ≤ 4294967296) × (65536 < n))
      ⊎ ((infer_repr n ≡ uint64) × (4294967296 < n))
unfolding infer_repr
infer_repr_cases n = ground arith

-- Up to 2 ^ 64 variants, the inferred tag type has a tag for each variant; if it is wider than 8 bits,
-- then a type of half its width has too few.
pub infer_repr_lem :
    (n : ℕ) (bound : n ≤ 18446744073709551616)
    → (w : ℕ) × (repr_type_bit_width (infer_repr n) ≡ some w)
      × (n ≤ 2 ^ w)
      × ((w ≡ 8) ⊎ (2 ^ (w / 2) < n))
unfolding repr_type_bit_width
infer_repr_lem n bound = elim (infer_repr_cases n) [
  | inl h ↦ (8, ap repr_type_bit_width h.0, h.1, inl refl)
  | inr (inl h) ↦ (16, ap repr_type_bit_width h.0, h.1, inr h.2)
  | inr (inr (inl h)) ↦ (32, ap repr_type_bit_width h.0, h.1, inr h.2)
  | inr (inr (inr h)) ↦ (64, ap repr_type_bit_width h.0, bound, inr h.1)
]

-- The language's rule: a variant's tag is its explicit discriminant, or the tag before it plus one;
-- without either it is 0. `next` is the tag that the next variant gets without a discriminant.
unfoldable pub discriminants : ℕ → ℕ → List (Option ℕ) → List ℕ
discriminants w next [] = []
discriminants w next (some value ∷ vs) =
    (value % 2 ^ w) ∷ discriminants w ((value % 2 ^ w + 1) % 2 ^ w) vs
discriminants w next (none ∷ vs) = next ∷ discriminants w ((next + 1) % 2 ^ w) vs

next_lem : (m next a b : ℕ) (e : next ≡ a % m) (f : b ≡ a + 1) → (next + 1) % m ≡ b % m
next_lem m next a b e f = rw (e, f) (mod-add-mod a m 1)

tag_exprs_after :
    (w value offset next : ℕ) (vs : List (Option ℕ)) (e : next ≡ (value + suc offset) % 2 ^ w)
    → eval_tags w (tag_exprs_from (some value) offset vs) ≡ discriminants w next vs
unfolding tag_exprs_from eval_tags eval_tag discriminants
tag_exprs_after w value offset next [] e = refl
tag_exprs_after w value offset next (some v ∷ vs) e =
    ap (λ ts. (v % 2 ^ w) ∷ ts) (tag_exprs_after w v 0 _ vs (mod-add-mod v (2 ^ w) 1))
tag_exprs_after w value offset next (none ∷ vs) e =
    cons_cong (sym (add-mod value (suc offset) (2 ^ w)) ∙ sym e) (
      tag_exprs_after w value (suc offset) _ vs
        (next_lem (2 ^ w) next (value + suc offset) _ e (omega arith)))

tag_exprs_literal :
    (w offset next : ℕ) (vs : List (Option ℕ)) (e : next ≡ offset % 2 ^ w)
    → eval_tags w (tag_exprs_from none offset vs) ≡ discriminants w next vs
unfolding tag_exprs_from eval_tags eval_tag discriminants
tag_exprs_literal w offset next [] e = refl
tag_exprs_literal w offset next (some v ∷ vs) e =
    ap (λ ts. (v % 2 ^ w) ∷ ts) (tag_exprs_after w v 0 _ vs (mod-add-mod v (2 ^ w) 1))
tag_exprs_literal w offset next (none ∷ vs) e =
    cons_cong (sym e)
      (tag_exprs_literal w (suc offset) _ vs (next_lem (2 ^ w) next offset _ e (omega arith)))

-- The printed tag expressions evaluate to the discriminants that the language assigns, also where
-- they wrap around.
pub enum_variant_tag_exprs_lem :
    (w : ℕ) (vs : List (Option ℕ)) → eval_tags w (enum_variant_tag_exprs vs) ≡ discriminants w 0 vs
unfolding enum_variant_tag_exprs
enum_variant_tag_exprs_lem w vs = tag_exprs_literal w 0 0 vs (sym (zero-mod (2 ^ w)))
