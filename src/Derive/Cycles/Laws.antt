-- ===== src/Derive/Cycles/Laws.antt =====
-- The loop removes every parameter exactly if the dependencies have no circle.
use co.Prelude.{
  ℕ, zero, suc, ◌≤◌, ◌<◌, true, false, not, List, [], ◌∷◌, length, contains, filter,
  contains-filter, length-filter_lt, if◌then◌else◌, Bool-cases, ◌≡◌, ◌≢◌, ◌∙◌, refl, sym, ap, arith,
  inl, inr, ◌⊎◌,
}
use co.Derive.Cycles.{
  Dependencies, is_nil, resolved_of, remove_resolved, resolve_round, resolve_loop, resolve,
}

-- Every dependency is a parameter.
abbrev pub IsClosed : Dependencies → Type 0
IsClosed d =
    (p q : ℕ) → contains d.params p ≡ true → contains (d.on p) q ≡ true → contains d.params q ≡ true

-- An order of the parameters in which each stands behind those that it depends on.
abbrev pub IsRanked : Dependencies → (ℕ → ℕ) → Type 0
IsRanked d rank =
    (p q : ℕ) → contains d.params p ≡ true → contains (d.on p) q ≡ true → rank q < rank p

-- Parameters of which each depends on another of them.
abbrev pub IsTrap : Dependencies → List ℕ → Type 0
IsTrap d trap =
    (p : ℕ)
    → contains trap p ≡ true
    → (contains d.params p ≡ true)
      × ((q : ℕ) × (contains (d.on p) q ≡ true) × (contains trap q ≡ true))

-- Following a trap, the rank decreases forever.
rank_bounds :
    (d : Dependencies) (rank : ℕ → ℕ) (ranked : IsRanked d rank) (trap : List ℕ)
    (trapped : IsTrap d trap) (n p : ℕ) (low : rank p < n)
    → contains trap p ≢ true
rank_bounds d rank ranked trap trapped zero p low = omega arith
rank_bounds d rank ranked trap trapped (suc n) p low = λ mem.
    let (param, step) = trapped p mem in
    let (q, dep, again) = step in
    rank_bounds d rank ranked trap trapped n q (omega (arith, ranked p q param dep)) again

-- A ranking and a trap exclude each other.
pub rank_excludes_trap :
    (d : Dependencies) (rank : ℕ → ℕ) (ranked : IsRanked d rank) (trap : List ℕ)
    (trapped : IsTrap d trap) (p : ℕ)
    → contains trap p ≢ true
rank_excludes_trap d rank ranked trap trapped p =
    rank_bounds d rank ranked trap trapped (suc (rank p)) p (omega arith)

contains-is_nil : (xs : List ℕ) (a : ℕ) → is_nil xs ≡ true → contains xs a ≡ false
unfolding is_nil
contains-is_nil [] a e = refl
contains-is_nil (x ∷ xs) a e = cc

some_member : (xs : List ℕ) → is_nil xs ≡ false → (a : ℕ) × (contains xs a ≡ true)
unfolding is_nil
some_member [] e = cc
some_member (x ∷ xs) e = (x, ground arith)

remove_resolved-IsClosed :
    (d : Dependencies) (rs : List ℕ) (closed : IsClosed d) → IsClosed (remove_resolved d rs)
unfolding remove_resolved
remove_resolved-IsClosed d rs closed = λ p q mem dep. ground (
  arith,
  contains-filter (λ p. not (contains rs p)) d.params p,
  contains-filter (λ p. not (contains rs p)) d.params q,
  contains-filter (λ q. not (contains rs q)) (d.on p) q,
  closed p q,
)

remove_resolved-IsRanked :
    (d : Dependencies) (rank : ℕ → ℕ) (ranked : IsRanked (remove_resolved d (resolved_of d)) rank)
    → IsRanked d (λ p. if contains (resolved_of d) p then 0 else suc (rank p))
unfolding remove_resolved resolved_of
remove_resolved-IsRanked d rank ranked = λ p q mem dep.
    let resolved = filter (λ p. is_nil (d.on p)) d.params in
    elim (Bool-cases (contains resolved p)) [
      | inl done ↦
          ground
            (arith, contains-filter (λ p. is_nil (d.on p)) d.params p, contains-is_nil (d.on p) q)
      | inr waits ↦ elim (Bool-cases (contains resolved q)) [
        | inl before ↦ rw (waits, before) (omega arith)
        | inr later ↦
            rw (waits, later)
              (omega (
                arith,
                ranked p q
                    (contains-filter (λ p. not (contains resolved p)) d.params p
                      ∙ rw (mem, waits) refl)
                    (contains-filter (λ q. not (contains resolved q)) (d.on p) q
                      ∙ rw (dep, later) refl),
              ))
      ]
    ]

remove_resolved-IsTrap :
    (d : Dependencies) (rs trap : List ℕ) (trapped : IsTrap (remove_resolved d rs) trap)
    → IsTrap d trap
unfolding remove_resolved
remove_resolved-IsTrap d rs trap trapped = λ p mem.
    let (param, step) = trapped p mem in
    let (q, dep, again) = step in
    (
      ground (arith, contains-filter (λ p. not (contains rs p)) d.params p, param),
      (q, ground (arith, contains-filter (λ q. not (contains rs q)) (d.on p) q, dep), again),
    )

-- Where the loop ends with what is left.
abbrev pub Outcome : Dependencies → List ℕ → Type 0
Outcome d left =
    ((left ≡ []) × ((rank : ℕ → ℕ) × IsRanked d rank))
    ⊎ ((p : ℕ) × (contains left p ≡ true) × IsTrap d left)

stuck-Outcome :
    (d : Dependencies) (closed : IsClosed d) (stuck : resolved_of d ≡ []) (params : List ℕ)
    (same : d.params ≡ params)
    → Outcome d params
unfolding resolved_of
stuck-Outcome d closed stuck [] same =
    inl (refl, ((λ p. 0), λ p q mem dep. absurd (ground (arith, same, mem))))
stuck-Outcome d closed stuck (p ∷ ps) same = inr (
  p,
  ground arith,
  λ q mem.
      let param : contains d.params q ≡ true = rw same mem in
      let waits : is_nil (d.on q) ≡ false = ground (
        arith,
        contains-filter (λ p. is_nil (d.on p)) d.params q,
        param,
        ap (λ r. contains r q) stuck,
      ) in
      let (r, dep) = some_member (d.on q) waits in
      (param, (r, dep, ap (λ xs. contains xs r) (sym same) ∙ closed q r param dep)),
)

-- A round makes the map smaller.
length-remove_resolved_lt :
    (d : Dependencies) (r : ℕ) (rs : List ℕ) (found : resolved_of d ≡ r ∷ rs)
    → length (remove_resolved d (r ∷ rs)).params < length d.params
unfolding remove_resolved resolved_of
length-remove_resolved_lt d r rs found =
    length-filter_lt (λ p. not (contains (r ∷ rs) p)) d.params r
      (ground
        (arith, contains-filter (λ p. is_nil (d.on p)) d.params r, ap (λ xs. contains xs r) found))
      (ground arith)

remove_resolved-Outcome :
    (d : Dependencies) (rs left : List ℕ) (found : resolved_of d ≡ rs)
    → Outcome (remove_resolved d rs) left
    → Outcome d left
remove_resolved-Outcome d rs left found (inl (empty, (rank, ranked))) = inl (
  empty,
  (
    (λ p. if contains (resolved_of d) p then 0 else suc (rank p)),
    remove_resolved-IsRanked d rank (rw found ranked),
  ),
)
remove_resolved-Outcome d rs left found (inr (p, mem, trapped)) =
    inr (p, mem, remove_resolved-IsTrap d rs left trapped)

resolve_loop-Outcome :
    (n : ℕ) (d : Dependencies) (enough : length d.params ≤ n) (closed : IsClosed d)
    → Outcome d (resolve_loop n d).params
unfolding resolve_loop
resolve_loop-Outcome zero d enough closed = no_params d.params refl
  where
    no_params : (params : List ℕ) → d.params ≡ params → Outcome d params
    no_params [] same = inl (refl, ((λ p. 0), λ p q mem dep. absurd (ground (arith, same, mem))))
    no_params (p ∷ ps) same = absurd (ground (arith, enough, ap length same))
resolve_loop-Outcome (suc n) d enough closed =
    after_round (resolved_of d) refl (resolve_loop-Outcome n)
  where
    after_round :
        (rs : List ℕ)
        → resolved_of d ≡ rs
        → ((d : Dependencies)
            → length d.params ≤ n
            → IsClosed d
            → Outcome d (resolve_loop n d).params)
        → Outcome d (resolve_round (resolve_loop n) d rs).params
    after_round [] e later = stuck-Outcome d closed e d.params refl
    after_round (r ∷ rs) e later =
        let smaller = remove_resolved d (r ∷ rs) in
        remove_resolved-Outcome d (r ∷ rs) (resolve_loop n smaller).params e (
          later smaller (omega (arith, length-remove_resolved_lt d r rs e, enough))
            (remove_resolved-IsClosed d (r ∷ rs) closed))

-- The loop resolves everything and the parameters have a ranking, or what it leaves is a trap.
pub resolve-Outcome : (d : Dependencies) (closed : IsClosed d) → Outcome d (resolve d).params
unfolding resolve
resolve-Outcome d closed = resolve_loop-Outcome (length d.params) d (omega arith) closed
