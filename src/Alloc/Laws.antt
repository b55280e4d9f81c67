-- ===== src/Alloc/Laws.antt =====
-- A vector that is given up to a raw pointer comes back as it was, and the heap with it.
use mathlib.Core.Path.{fun_ext}
use co.Prelude.{
  ℕ, zero, suc, ◌≤◌, ◌<◌, Bool, true, false, Option, none, some, List, [], ◌∷◌, ◌++◌, length,
  length-append, ltb, ◌==◌, ==_iff, if◌then◌else◌, Bool-cases, ◌≡◌, refl, sym, ap, ◌∙◌, arith, inl,
  inr,
}
use co.Alloc.{
  Allocation, Heap, RustVec, set_raw, rust_into_raw_parts, rust_from_raw_parts, take_allocation,
  rust_push, push_into, allocate, with_capacity, rust_pop, pop_items, split_last, IsOwned, IsHeap,
}

module _ {ℓ} {A : Type ℓ} where
  set_raw-set_raw :
      (raw : ℕ → Option (Allocation A)) (a : ℕ) (content : Option (Allocation A))
      (free : raw a ≡ none)
      → set_raw (set_raw raw a content) a none ≡ raw
  unfolding set_raw
  set_raw-set_raw raw a content free = fun_ext λ b. elim (Bool-cases (b == a)) [
    | inl same ↦ ground (arith, free, ap raw ((==_iff b a).0 same))
    | inr differs ↦ ground arith
  ]

  no_items : (xs : List A) → length xs ≤ 0 → xs ≡ []
  no_items [] h = refl
  no_items (x ∷ xs) h = absurd (omega arith)

  set_raw_same :
      (raw : ℕ → Option (Allocation A)) (a : ℕ) (content : Option (Allocation A))
      → set_raw raw a content a ≡ content
  unfolding set_raw
  set_raw_same raw a content = ground arith

  take_allocation_lem :
      (a : ℕ) (xs : List A) (c : ℕ) (h : Heap A)
      → take_allocation a (length xs) c (some (record { items = xs; capacity = c })) h
        ≡ some (
          record { address = a; items = xs; capacity = c },
          record h { raw = set_raw h.raw a none },
        )
  unfolding take_allocation
  take_allocation_lem a xs c h = ground arith

  from_parts :
      (a : ℕ) (xs : List A) (c next : ℕ) (raw : ℕ → Option (Allocation A)) (fits : length xs ≤ c)
      (free : 0 < c → raw a ≡ none)
      → let v : RustVec A = record { address = a; items = xs; capacity = c } in
        let h : Heap A = record { next = next; raw = raw } in
        rust_from_raw_parts a (length xs) c (rust_into_raw_parts v h).1 ≡ some (v, h)
  unfolding rust_from_raw_parts rust_into_raw_parts
  from_parts a [] zero next raw fits free = refl
  from_parts a (x ∷ xs) zero next raw fits free = absurd (omega arith)
  from_parts a xs (suc c) next raw fits free =
      let given : Option (Allocation A) = some (record { items = xs; capacity = suc c }) in
      let after : Heap A = record { next = next; raw = set_raw raw a given } in
      let positive : (suc c == 0) ≡ false = ground arith in
      rw (rust_from_raw_parts, rust_into_raw_parts, positive)
        (ap (λ found. take_allocation a (length xs) (suc c) found after) (set_raw_same raw a given)
          ∙ (take_allocation_lem a xs (suc c) after
              ∙ ap
                  (λ r. some (
                    record { address = a; items = xs; capacity = suc c },
                    record { next = next; raw = r },
                  ))
                  (set_raw-set_raw raw a given (free (omega arith)))))

  -- `from_raw_parts` behind `into_raw_parts`.
  pub rust_from_raw_parts-rust_into_raw_parts :
      (v : RustVec A) (h : Heap A) (owned : IsOwned v h)
      → rust_from_raw_parts v.address (length v.items) v.capacity (rust_into_raw_parts v h).1
        ≡ some (v, h)
  rust_from_raw_parts-rust_into_raw_parts v h owned =
      from_parts v.address v.items v.capacity h.next h.raw owned.1 owned.2

  push_into_lem :
      (room : Bool) (grown : Option ℕ) (v : RustVec A) (x : A) (h : Heap A)
      (fits : ltb (length v.items) v.capacity ≡ room) (owned : IsOwned v h) (heap : IsHeap h)
      (larger : (d : ℕ) → grown ≡ some d → v.capacity < d)
      → let (returned, v', h') = push_into room grown v x h in
        IsOwned v' h'
        × IsHeap h'
        × (h'.raw ≡ h.raw)
        × (v'.items ≡ (if returned then v.items ++ (x ∷ []) else v.items))
  unfolding push_into
  push_into_lem true grown v x h fits owned heap larger = (
    (owned.0, ground (arith, length-append v.items (x ∷ []), fits, owned.1), owned.2),
    heap,
    refl,
    refl,
  )
  push_into_lem false none v x h fits owned heap larger = (owned, heap, refl, refl)
  push_into_lem false (some capacity) v x h fits owned heap larger = (
    (
      (λ e. ground (arith, heap.0, e)),
      ground (arith, length-append v.items (x ∷ []), owned.1, larger capacity refl),
      λ p. heap.1 h.next (omega arith),
    ),
    (omega arith, λ a above. heap.1 a (omega (arith, above))),
    refl,
    refl,
  )

  -- `push` keeps the elements, and adds one where it returns.
  pub rust_push_lem :
      (grow : ℕ → Option ℕ) (grows : (c d : ℕ) → grow c ≡ some d → c < d) (v : RustVec A) (x : A)
      (h : Heap A) (owned : IsOwned v h) (heap : IsHeap h)
      → let (returned, v', h') = rust_push grow v x h in
        IsOwned v' h'
        × IsHeap h'
        × (h'.raw ≡ h.raw)
        × (v'.items ≡ (if returned then v.items ++ (x ∷ []) else v.items))
  unfolding rust_push
  rust_push_lem grow grows v x h owned heap =
      push_into_lem (ltb (length v.items) v.capacity) (grow v.capacity) v x h refl owned heap
        (grows v.capacity)

  split_last_lem :
      (x : A) (xs : List A)
      → ((split_last x xs).0 ++ ((split_last x xs).1 ∷ []) ≡ x ∷ xs)
        × (length (split_last x xs).0 ≡ length xs)
  unfolding split_last
  split_last_lem x [] = (refl, refl)
  split_last_lem x (y ∷ xs) =
      (ap (λ ys. x ∷ ys) (split_last_lem y xs).0, ap suc (split_last_lem y xs).1)

  -- What `pop` says of the elements.
  abbrev pub Popped : Option A → List A → List A → Type ℓ
  Popped none before after = (before ≡ []) × (after ≡ [])
  Popped (some x) before after = after ++ (x ∷ []) ≡ before

  pop_items_lem :
      (v : RustVec A) (items : List A) (same : v.items ≡ items)
      → let (x, v') = pop_items v items in
        Popped x items v'.items
        × (length v'.items ≤ length items)
        × (v'.address ≡ v.address)
        × (v'.capacity ≡ v.capacity)
  unfolding pop_items
  pop_items_lem v [] same = ((refl, same), ground (arith, ap length same), refl, refl)
  pop_items_lem v (x ∷ xs) same =
      ((split_last_lem x xs).0, omega (arith, (split_last_lem x xs).1), refl, refl)

  -- `pop` takes the last element, if there is one.
  pub rust_pop_lem :
      (v : RustVec A) (h : Heap A) (owned : IsOwned v h)
      → let (x, v') = rust_pop v in IsOwned v' h × Popped x v.items v'.items
  unfolding rust_pop
  rust_pop_lem v h owned =
      let (popped, shorter, address, capacity) = pop_items_lem v v.items refl in
      (
        (
          (λ e. owned.0 (sym address ∙ e)),
          omega (arith, shorter, capacity, owned.1),
          λ p. ap h.raw address ∙ owned.2 (omega (arith, capacity, p)),
        ),
        popped,
      )

  allocate-IsOwned :
      (empty : Bool) (capacity : ℕ) (items : List A) (h : Heap A)
      (none_needed : (capacity == 0) ≡ empty) (fits : length items ≤ capacity) (heap : IsHeap h)
      → let (w, h') = allocate empty capacity items h in
        IsOwned w h' × IsHeap h' × (h'.raw ≡ h.raw) × (w.items ≡ items) × (w.capacity ≡ capacity)
  unfolding allocate
  allocate-IsOwned true capacity items h none_needed fits heap =
      let zero_capacity = (==_iff capacity 0).0 none_needed in
      (
        (
          (λ e. omega (arith, e)),
          omega (arith, fits, zero_capacity),
          λ p. absurd (omega (arith, p)),
        ),
        heap,
        refl,
        refl,
        sym zero_capacity,
      )
  allocate-IsOwned false capacity items h none_needed fits heap = (
    ((λ e. omega (arith, e, heap.0)), fits, λ p. heap.1 h.next (omega arith)),
    (omega arith, λ a above. heap.1 a (omega (arith, above))),
    refl,
    refl,
    refl,
  )

  -- A new vector is owned, and has what it was made of.
  pub with_capacity-IsOwned :
      (capacity : ℕ) (items : List A) (h : Heap A) (fits : length items ≤ capacity)
      (heap : IsHeap h)
      → let (w, h') = with_capacity capacity items h in
        IsOwned w h' × IsHeap h' × (h'.raw ≡ h.raw) × (w.items ≡ items) × (w.capacity ≡ capacity)
  unfolding with_capacity
  with_capacity-IsOwned capacity items h fits heap =
      allocate-IsOwned (capacity == 0) capacity items h refl fits heap
