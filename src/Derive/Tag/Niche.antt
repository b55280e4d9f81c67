-- ===== src/Derive/Tag/Niche.antt =====
-- The printed search for a niche tag ends, and finds a tag of no variant.
use co.Prelude.{
  ℕ, zero, suc, ◌+◌, ◌-◌, ◌^◌, ◌%◌, ◌≤◌, ◌<◌, inl, inr, true, false, Option, none, some, List, [],
  ◌∷◌, length, ◌≡◌, ◌≢◌, ◌∙◌, sym, ap, refl, arith, ◌==◌, if◌then◌else◌, Bool-cases, Option-cases,
}
use native.Mathlib.Nat.{mod-eq_of_lt, one-le-pow}
use co.Derive.Tag.{
  is_free, niche_tag_loop, wrapping_pred, gen_enum_niche_tag, enum_variant_tag_exprs, eval_tags,
  eval_tag, tag_exprs_from, any_explicit, implicit_niche,
}

without : ℕ → List ℕ → List ℕ
without x [] = []
without x (y ∷ ys) = let rest = without x ys in if x == y then rest else y ∷ rest

length-without_le : (x : ℕ) (l : List ℕ) → length (without x l) ≤ length l
unfolding without
length-without_le x [] = ground arith
length-without_le x (y ∷ ys) = ground (arith, length-without_le x ys)

length-without_lt :
    (x : ℕ) (l : List ℕ) (taken : is_free x l ≡ false) → length (without x l) < length l
unfolding without is_free
length-without_lt x [] taken = ground arith
length-without_lt x (y ∷ ys) taken = ground (arith, length-without_le x ys, length-without_lt x ys)

is_free-without :
    (x t : ℕ) (l : List ℕ) (ne : x ≢ t) (taken : is_free t l ≡ false)
    → is_free t (without x l) ≡ false
unfolding without is_free
is_free-without x t [] ne taken = taken
is_free-without x t (y ∷ ys) ne taken = ground (arith, is_free-without x t ys ne)

-- A list in which every number below `n` occurs has at least `n` elements.
pigeonhole : (n : ℕ) (l : List ℕ) (taken : (t : ℕ) → t < n → is_free t l ≡ false) → n ≤ length l
pigeonhole zero l taken = ground arith
pigeonhole (suc n) l taken =
    let rest =
      pigeonhole n (without n l)
        (λ t lt. is_free-without n t l (λ e. omega arith) (taken t (omega arith))) in
    let shorter = length-without_lt n l (taken n (omega arith)) in omega arith

loop_none :
    (f w c : ℕ) (tags : List ℕ) (nothing : niche_tag_loop (suc f) w c tags ≡ none)
    → (is_free c tags ≡ false) × (niche_tag_loop f w (wrapping_pred w c) tags ≡ none)
unfolding niche_tag_loop
loop_none f w c tags nothing = ground arith

-- Where the descent from `f` finds nothing, each of the `f` candidates is taken.
descent_taken :
    (f w : ℕ) (tags : List ℕ) (nothing : niche_tag_loop f w f tags ≡ none) (t : ℕ) (lt : t < f)
    → is_free (suc t) tags ≡ false
unfolding wrapping_pred
descent_taken zero w tags nothing t lt = ground arith
descent_taken (suc f) w tags nothing t lt =
    let h = loop_none f w (suc f) tags nothing in ground (arith, h.0, descent_taken f w tags h.1 t)

wrapping_pred_lt : (w c : ℕ) (lt : c < 2 ^ w) → wrapping_pred w c < 2 ^ w
unfolding wrapping_pred
wrapping_pred_lt w zero lt = omega arith
wrapping_pred_lt w (suc c) lt = omega arith

loop_free :
    (f w c : ℕ) (tags : List ℕ) (t : ℕ) (lt : c < 2 ^ w)
    (found : niche_tag_loop f w c tags ≡ some t)
    → (is_free t tags ≡ true) × (t < 2 ^ w)
unfolding niche_tag_loop
loop_free zero w c tags t lt found = ground arith
loop_free (suc f) w c tags t lt found =
    let rest = loop_free f w (wrapping_pred w c) tags t (wrapping_pred_lt w c lt) in
    ground (arith, rest, lt)

all_taken :
    (M : ℕ) (tags : List ℕ) (first : is_free 0 tags ≡ false)
    (others : (t : ℕ) → t < M → is_free (suc t) tags ≡ false) (t : ℕ) (lt : t < suc M)
    → is_free t tags ≡ false
all_taken M tags first others zero lt = first
all_taken M tags first others (suc t) lt = others t (omega arith)

wrapping_pred_zero : (M w : ℕ) (e : suc M ≡ 2 ^ w) → M ≡ wrapping_pred w 0
unfolding wrapping_pred
wrapping_pred_zero M w e = omega arith

-- `M` rounds are enough where `M = 2 ^ w` and fewer than `M` tags are taken.
loop_total :
    (M w : ℕ) (e : suc M ≡ 2 ^ w) (tags : List ℕ) (few : length tags < suc M)
    → niche_tag_loop (suc M) w 0 tags ≢ none
unfolding wrapping_pred
loop_total M w e tags few nothing =
    let h = loop_none M w 0 tags nothing in
    let top : niche_tag_loop M w M tags ≡ none =
      ap (λ x. niche_tag_loop M w x tags) (wrapping_pred_zero M w e) ∙ h.1 in
    let many = pigeonhole (suc M) tags (all_taken M tags h.0 (descent_taken M w tags top)) in
    omega arith

length-eval_tags :
    (w offset : ℕ) (last : Option ℕ) (vs : List (Option ℕ))
    → length (eval_tags w (tag_exprs_from last offset vs)) ≡ length vs
unfolding eval_tags tag_exprs_from
length-eval_tags w offset last [] = refl
length-eval_tags w offset last (some v ∷ vs) = ap suc (length-eval_tags w 0 (some v) vs)
length-eval_tags w offset none (none ∷ vs) = ap suc (length-eval_tags w (suc offset) none vs)
length-eval_tags w offset (some v) (none ∷ vs) =
    ap suc (length-eval_tags w (suc offset) (some v) vs)

-- Without discriminants the tags are consecutive, and what lies behind them is free.
implicit_free :
    (w offset t : ℕ) (vs : List (Option ℕ)) (implicit : any_explicit vs ≡ false)
    (le : offset + length vs ≤ t) (lt : t < 2 ^ w)
    → is_free t (eval_tags w (tag_exprs_from none offset vs)) ≡ true
unfolding is_free eval_tags eval_tag tag_exprs_from any_explicit
implicit_free w offset t [] implicit le lt = refl
implicit_free w offset t (some v ∷ vs) implicit le lt = ground arith
implicit_free w offset t (none ∷ vs) implicit le lt =
    let same : offset % 2 ^ w ≡ offset = mod-eq_of_lt (omega arith) in
    let rest = implicit_free w (suc offset) t vs implicit (omega arith) lt in
    ground (arith, same, rest)

positive_pow : (w : ℕ) → (M : ℕ) × (suc M ≡ 2 ^ w)
positive_pow w = let pos : 1 ≤ 2 ^ w = one-le-pow w 2 (omega arith) in (2 ^ w - 1, omega arith)

explicit_lem :
    (M w : ℕ) (e : suc M ≡ 2 ^ w) (tags : List ℕ) (few : length tags < suc M)
    → (t : ℕ) × (niche_tag_loop (suc M) w 0 tags ≡ some t) × (is_free t tags ≡ true) × (t < 2 ^ w)
explicit_lem M w e tags few = elim (Option-cases (niche_tag_loop (suc M) w 0 tags)) [
  | inl nothing ↦ absurd (loop_total M w e tags few nothing)
  | inr (t, found) ↦
      (let h = loop_free (suc M) w 0 tags t (omega arith) found in (t, found, h.0, h.1))
]

implicit_lem :
    (w : ℕ) (vs : List (Option ℕ)) (few : length vs < 2 ^ w) (implicit : any_explicit vs ≡ false)
    → (is_free (implicit_niche w vs) (eval_tags w (tag_exprs_from none 0 vs)) ≡ true)
      × (implicit_niche w vs < 2 ^ w)
unfolding implicit_niche wrapping_pred
implicit_lem w [] few implicit = (implicit_free w 0 0 [] implicit (omega arith) few, few)
implicit_lem w (v ∷ vs) few implicit =
    (implicit_free w 0 (2 ^ w - 1) (v ∷ vs) implicit (omega arith) (omega arith), omega arith)

-- Where an enum leaves a tag of its `w` bits unused, the printed search for a niche tag ends within
-- `2 ^ w` rounds, with a tag in range that is the tag of no variant.
pub gen_enum_niche_tag_lem :
    (w : ℕ) (vs : List (Option ℕ)) (few : length vs < 2 ^ w)
    → (t : ℕ) × (gen_enum_niche_tag (2 ^ w) w vs ≡ some t)
      × (is_free t (eval_tags w (enum_variant_tag_exprs vs)) ≡ true)
      × (t < 2 ^ w)
unfolding gen_enum_niche_tag enum_variant_tag_exprs
gen_enum_niche_tag_lem w vs few = elim (Bool-cases (any_explicit vs)) [
  | inl explicit ↦
      (let (M, e) = positive_pow w in
        let tags = eval_tags w (tag_exprs_from none 0 vs) in
        let same = length-eval_tags w 0 none vs in
        let (t, found, free, lt) = explicit_lem M w e tags (omega arith) in
        (t, rw (explicit, sym e) found, free, lt))
  | inr implicit ↦ (
    implicit_niche w vs,
    rw implicit refl,
    (implicit_lem w vs few implicit).0,
    (implicit_lem w vs few implicit).1,
  )
]
