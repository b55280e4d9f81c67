-- ===== src/Derive/Groups/Assigned.antt =====
-- No parameter is in two groups, or twice in one.
use co.Prelude.{
  ℕ, suc, ◌+◌, ◌≤◌, Bool, true, false, List, [], ◌∷◌, ◌++◌, ◌==◌, ==_iff, contains, if◌then◌else◌,
  ok, and_then-ok, ok_inj, ◌≡◌, ap, arith, inl, inr, Bool-cases,
}
use co.Derive.Groups.{
  GenericParam, CapturedParam, captured, captured_lifetime, captured_other, Entry, entry, malformed,
  GroupError, GroupState, push_error, push_ident, group_loop, finish, parse_dispatch_group, Groups,
  insert_group, groups_loop, parse_dispatch_groups, GenericArgument,
}

-- How often a number stands in a list.
unfoldable pub count : ℕ → List ℕ → ℕ
count a [] = 0
count a (x ∷ xs) = if x == a then suc (count a xs) else count a xs

unfoldable bit : Bool → ℕ
bit true = 1
bit false = 0

bit_le : (b : Bool) → bit b ≤ 1
unfolding bit
bit_le true = omega arith
bit_le false = omega arith

pub count-append : (a : ℕ) (xs ys : List ℕ) → count a (xs ++ ys) ≡ count a xs + count a ys
unfolding count
count-append a [] ys = omega arith
count-append a (x ∷ xs) ys = ground (arith, count-append a xs ys)

push-count :
    (a : ℕ) (before : List ℕ) (types consts : List ℕ) (ident : ℕ) (s : GroupState)
    (inv : count a s.group + bit (contains before a) ≤ bit (contains s.assigned a))
    → let s' = push_ident types consts ident s in
      count a s'.group + bit (contains before a) ≤ bit (contains s'.assigned a)
unfolding push_ident push_error count bit
push-count a before types consts ident s inv = elim (Bool-cases (ident == a)) [
  | inl same ↦ ground (
    arith,
    ap (contains s.assigned) ((==_iff ident a).0 same),
    count-append a s.group (ident ∷ []),
  )
  | inr differs ↦ ground (arith, count-append a s.group (ident ∷ []))
]

loop-count :
    (a : ℕ) (before : List ℕ) (types consts : List ℕ) (params : List CapturedParam) (s : GroupState)
    (inv : count a s.group + bit (contains before a) ≤ bit (contains s.assigned a))
    → let s' = group_loop types consts params s in
      count a s'.group + bit (contains before a) ≤ bit (contains s'.assigned a)
unfolding group_loop push_error
loop-count a before types consts [] s inv = inv
loop-count a before types consts (captured ident ∷ params) s inv =
    loop-count a before types consts params (push_ident types consts ident s)
      (push-count a before types consts ident s inv)
loop-count a before types consts (captured_lifetime ∷ params) s inv =
    loop-count a before types consts params _ inv
loop-count a before types consts (captured_other ∷ params) s inv =
    loop-count a before types consts params _ inv

finish_ok {ℓ} : {A : Type ℓ} (es : List GroupError) (a b : A) (done : finish es a ≡ ok b) → a ≡ b
unfolding finish
finish_ok [] a b done = ok_inj done
finish_ok (e ∷ es) a b done = cc

group-count :
    (a : ℕ) (types consts assigned : List ℕ) (params : List CapturedParam)
    (group assigned' : List ℕ)
    (parsed : parse_dispatch_group types consts assigned params ≡ ok (group, assigned'))
    → count a group + bit (contains assigned a) ≤ bit (contains assigned' a)
unfolding parse_dispatch_group count
group-count a types consts assigned [] group assigned' parsed = cc
group-count a types consts assigned (param ∷ params) group assigned' parsed =
    let start : GroupState = record { assigned = assigned; group = []; errors = [] } in
    let s = group_loop types consts (param ∷ params) start in
    let same = finish_ok s.errors (s.group, s.assigned) (group, assigned') parsed in
    let inv = loop-count a assigned types consts (param ∷ params) start (omega arith) in
    omega (arith, inv, ap (λ t. count a t.0) same, ap (λ t. bit (contains t.1 a)) same)

-- The parameters of all groups.
abbrev pub keys {τ} : {A : Type τ} → Groups A → List ℕ
keys [] = []
keys ((group, targets) ∷ groups) = group ++ keys groups

module _ {τ} {A : Type τ} where
  insert-count :
      (a : ℕ) (group : List ℕ) (targets : List (List (GenericArgument A))) (groups : Groups A)
      → count a (keys (insert_group group targets groups)) ≤ count a group + count a (keys groups)
  unfolding insert_group count
  insert-count a group targets [] = omega (arith, count-append a group [])
  insert-count a group targets ((g, ts) ∷ groups) = ground (
    arith,
    insert-count a group targets groups,
    count-append a g (keys groups),
    count-append a g (keys (insert_group group targets groups)),
    count-append a group (g ++ keys groups),
  )

  groups-count :
      (a : ℕ) (types consts assigned : List ℕ) (groups : Groups A) (entries : List (Entry A))
      (parsed : Groups A) (before : count a (keys groups) ≤ bit (contains assigned a))
      (done : groups_loop types consts assigned groups entries ≡ ok parsed)
      → count a (keys parsed) ≤ 1
  unfolding groups_loop bit
  groups-count a types consts assigned groups [] parsed before done =
      let small : bit (contains assigned a) ≤ 1 = bit_le (contains assigned a) in
      omega (arith, before, small, ap (λ g. count a (keys g)) (ok_inj done))
  groups-count a types consts assigned groups (malformed ∷ entries) parsed before done = cc
  groups-count a types consts assigned groups (entry params targets ∷ entries) parsed before done =
      let (next, e, rest) =
        and_then-ok (parse_dispatch_group types consts assigned params) _ parsed done in
      groups-count a types consts next.1 (insert_group next.0 targets groups) entries parsed
        (omega (
          arith,
          insert-count a next.0 targets groups,
          group-count a types consts assigned params next.0 next.1 e,
          before,
        ))
        rest

  -- Each parameter stands in one group, and once.
  pub parse_dispatch_groups-count :
      (a : ℕ) (generics : List GenericParam) (entries : List (Entry A)) (groups : Groups A)
      (parsed : parse_dispatch_groups generics entries ≡ ok groups)
      → count a (keys groups) ≤ 1
  unfolding parse_dispatch_groups count bit
  parse_dispatch_groups-count a generics entries groups parsed =
      groups-count a _ _ [] [] entries groups (omega arith) parsed
