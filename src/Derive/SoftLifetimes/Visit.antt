-- ===== src/Derive/SoftLifetimes/Visit.antt =====
-- Which names the visit of a type leaves in it.
use co.Prelude.{
  ℕ, ◌+◌, Bool, true, false, ◌&&◌, ◌||◌, ltb, leb, Option, none, some, List, [], ◌∷◌, ◌++◌, ◌≡◌,
  ◌∙◌, refl, ap, arith,
}
use co.Derive.SoftLifetimes.{
  Lifetime, underscore, fresh, named, Ty, done, lifetime, reference, fn_ptr, Collector, is_elided,
  explicitize_lifetime, recording, or_underscore, visit_ty,
}
use co.Derive.SoftLifetimes.Validate.{lifetime_eq, has_lifetime, collect_lifetimes}

abbrev pub one_if : Bool → ℕ
one_if true = 1
one_if false = 0

-- How many lifetimes of a type are elided, those of function pointers aside.
unfoldable pub elided : Ty → ℕ
elided done = 0
elided (lifetime l rest) = one_if (is_elided (some l)) + elided rest
elided (reference l elem rest) = one_if (is_elided l) + (elided elem + elided rest)
elided (fn_ptr inner rest) = elided rest

-- Whether a lifetime is not one of the names that are left to the macro.
unfoldable pub is_own : Lifetime → Bool
is_own underscore = true
is_own (fresh i) = false
is_own (named x) = true

-- Whether no lifetime of a type has such a name.
unfoldable pub is_written : Ty → Bool
unfolding is_own
is_written done = true
is_written (lifetime l rest) = is_own l && is_written rest
is_written (reference l elem rest) =
    is_own (or_underscore l) && (is_written elem && is_written rest)
is_written (fn_ptr inner rest) = is_written inner && is_written rest

-- Whether no lifetime is written in a type.
unfoldable pub is_bare : Ty → Bool
is_bare done = true
is_bare (lifetime l rest) = false
is_bare (reference none elem rest) = is_bare elem && is_bare rest
is_bare (reference (some l) elem rest) = false
is_bare (fn_ptr inner rest) = is_bare inner && is_bare rest

abbrev pub within : ℕ → ℕ → ℕ → Bool
within a b i = leb a i && ltb i b

-- Whether a lifetime is one of the fresh names from `a` to `b`.
abbrev pub fresh_within : ℕ → ℕ → Lifetime → Bool
fresh_within a b underscore = false
fresh_within a b (fresh i) = within a b i
fresh_within a b (named x) = false

pub has-append :
    (xs ys : List Lifetime) (l : Lifetime)
    → has_lifetime (xs ++ ys) l ≡ (has_lifetime xs l || has_lifetime ys l)
unfolding has_lifetime
has-append [] ys l = refl
has-append (x ∷ xs) ys l = ground (arith, has-append xs ys l)

explicitize-next_idx :
    (l : Option Lifetime) (s : Collector)
    → (explicitize_lifetime (or_underscore l) s).1.next_idx ≡ s.next_idx + one_if (is_elided l)
unfolding explicitize_lifetime
explicitize-next_idx none s = omega arith
explicitize-next_idx (some underscore) s = omega arith
explicitize-next_idx (some (fresh i)) s = omega arith
explicitize-next_idx (some (named x)) s = omega arith

explicitize_name :
    (l : Option Lifetime) (s : Collector) (own : is_own (or_underscore l) ≡ true) (i : ℕ)
    → lifetime_eq (explicitize_lifetime (or_underscore l) s).0 (fresh i)
      ≡ within s.next_idx (s.next_idx + one_if (is_elided l)) i
unfolding explicitize_lifetime lifetime_eq is_own
explicitize_name none s own i = ground arith
explicitize_name (some underscore) s own i = ground arith
explicitize_name (some (fresh j)) s own i = cc
explicitize_name (some (named x)) s own i = ground arith

pub visit-next_idx : (t : Ty) (s : Collector) → (visit_ty t s).1.next_idx ≡ s.next_idx + elided t
unfolding visit_ty elided recording
visit-next_idx done s = omega arith
visit-next_idx (lifetime l rest) s =
    let (l', s1) = explicitize_lifetime l s in
    omega (arith, explicitize-next_idx (some l) s, visit-next_idx rest (recording false l' s1))
visit-next_idx (reference l elem rest) s =
    let (l', s1) = explicitize_lifetime (or_underscore l) s in
    let s2 = recording false l' s1 in
    omega (
      arith,
      explicitize-next_idx l s,
      visit-next_idx elem s2,
      visit-next_idx rest (visit_ty elem s2).1,
    )
visit-next_idx (fn_ptr inner rest) s = visit-next_idx rest s

written-collect :
    (t : Ty) (i : ℕ) (written : is_written t ≡ true)
    → has_lifetime (collect_lifetimes t) (fresh i) ≡ false
unfolding is_written is_own collect_lifetimes has_lifetime lifetime_eq
written-collect done i written = refl
written-collect (lifetime underscore rest) i written = ground (arith, written-collect rest i)
written-collect (lifetime (fresh j) rest) i written = cc
written-collect (lifetime (named x) rest) i written = ground (arith, written-collect rest i)
written-collect (reference none elem rest) i written = ground (
  arith,
  has-append (collect_lifetimes elem) (collect_lifetimes rest) (fresh i),
  written-collect elem i,
  written-collect rest i,
)
written-collect (reference (some underscore) elem rest) i written = ground (
  arith,
  has-append (collect_lifetimes elem) (collect_lifetimes rest) (fresh i),
  written-collect elem i,
  written-collect rest i,
)
written-collect (reference (some (fresh j)) elem rest) i written = cc
written-collect (reference (some (named x)) elem rest) i written = ground (
  arith,
  has-append (collect_lifetimes elem) (collect_lifetimes rest) (fresh i),
  written-collect elem i,
  written-collect rest i,
)
written-collect (fn_ptr inner rest) i written = ground (
  arith,
  has-append (collect_lifetimes inner) (collect_lifetimes rest) (fresh i),
  written-collect inner i,
  written-collect rest i,
)

within_two :
    (n k e a i : ℕ) (p q : Bool) (next : k ≡ n + e) (head : p ≡ within n (n + e) i)
    (tail : q ≡ within k (k + a) i)
    → (p || q) ≡ within n (n + (e + a)) i
within_two n k e a i p q next head tail = ground (arith, next, head, tail)

-- The fresh names in a visited type are the next ones, one for each elided lifetime.
pub visit-collect :
    (t : Ty) (s : Collector) (i : ℕ) (written : is_written t ≡ true)
    → has_lifetime (collect_lifetimes (visit_ty t s).0) (fresh i)
      ≡ within s.next_idx (s.next_idx + elided t) i
unfolding visit_ty elided recording is_written collect_lifetimes has_lifetime
visit-collect done s i written = ground arith
visit-collect (lifetime l rest) s i written =
    let (l', s1) = explicitize_lifetime l s in
    let s2 = recording false l' s1 in
    let head = explicitize_name (some l) s (ground (arith, written)) i in
    let tail = visit-collect rest s2 i (ground (arith, written)) in
    within_two s.next_idx s2.next_idx (one_if (is_elided (some l))) (elided rest) i _ _
      (explicitize-next_idx (some l) s) head tail
visit-collect (reference l elem rest) s i written =
    let (l', s1) = explicitize_lifetime (or_underscore l) s in
    let s2 = recording false l' s1 in
    let (elem', s3) = visit_ty elem s2 in
    let head = explicitize_name l s (ground (arith, written)) i in
    let middle = visit-collect elem s2 i (ground (arith, written)) in
    let tail = visit-collect rest s3 i (ground (arith, written)) in
    ap (λ b. lifetime_eq l' (fresh i) || b)
      (has-append (collect_lifetimes elem') (collect_lifetimes (visit_ty rest s3).0) (fresh i))
    ∙ within_two s.next_idx s2.next_idx (one_if (is_elided l)) (elided elem + elided rest) i _ _
        (explicitize-next_idx l s) head
        (within_two s2.next_idx s3.next_idx (elided elem) (elided rest) i _ _
          (visit-next_idx elem s2) middle tail)
visit-collect (fn_ptr inner rest) s i written =
    has-append (collect_lifetimes inner) (collect_lifetimes (visit_ty rest s).0) (fresh i)
    ∙ ground (arith, written, written-collect inner i, visit-collect rest s i)

bare-collect : (t : Ty) (bare : is_bare t ≡ true) → collect_lifetimes t ≡ []
unfolding is_bare collect_lifetimes
bare-collect done bare = refl
bare-collect (lifetime l rest) bare = cc
bare-collect (reference none elem rest) bare =
    rw (bare-collect elem (ground (arith, bare)), bare-collect rest (ground (arith, bare))) refl
bare-collect (reference (some l) elem rest) bare = cc
bare-collect (fn_ptr inner rest) bare =
    rw (bare-collect inner (ground (arith, bare)), bare-collect rest (ground (arith, bare))) refl

-- Where no lifetime is written, all are fresh.
pub bare-all_fresh :
    (t : Ty) (s : Collector) (l : Lifetime) (own : is_own l ≡ true) (bare : is_bare t ≡ true)
    → has_lifetime (collect_lifetimes (visit_ty t s).0) l ≡ false
unfolding visit_ty is_bare collect_lifetimes has_lifetime lifetime_eq explicitize_lifetime recording
    is_own
bare-all_fresh done s l own bare = refl
bare-all_fresh (lifetime k rest) s l own bare = cc
bare-all_fresh (reference (some k) elem rest) s l own bare = cc
bare-all_fresh (fn_ptr inner rest) s l own bare = ground (
  arith,
  bare,
  has-append (collect_lifetimes inner) (collect_lifetimes (visit_ty rest s).0) l,
  bare-collect inner,
  bare-all_fresh rest s l own,
)
bare-all_fresh (reference none elem rest) s (fresh j) own bare = cc
bare-all_fresh (reference none elem rest) s underscore own bare =
    let s2 = recording false (fresh s.next_idx) (explicitize_lifetime underscore s).1 in
    let (elem', s3) = visit_ty elem s2 in
    ground (
      arith,
      has-append (collect_lifetimes elem') (collect_lifetimes (visit_ty rest s3).0) underscore,
      bare-all_fresh elem s2 underscore own,
      bare-all_fresh rest s3 underscore own,
    )
bare-all_fresh (reference none elem rest) s (named x) own bare =
    let s2 = recording false (fresh s.next_idx) (explicitize_lifetime underscore s).1 in
    let (elem', s3) = visit_ty elem s2 in
    ground (
      arith,
      has-append (collect_lifetimes elem') (collect_lifetimes (visit_ty rest s3).0) (named x),
      bare-all_fresh elem s2 (named x) own,
      bare-all_fresh rest s3 (named x) own,
    )
