-- ===== src/Alloc.antt =====
-- What src/vec.rs and src/boxed.rs use of the standard library's vectors and boxes, for elements that
-- are not zero-sized: an owned vector has its elements; an allocation that was given up to a raw
-- pointer stands in the heap until somebody takes it back.
pub mod Laws
use co.Prelude.{
  ℕ, zero, suc, ◌+◌, ◌≤◌, ◌<◌, Bool, true, false, ◌&&◌, ◌||◌, Option, none, some, List, [], ◌∷◌,
  ◌++◌, length, ltb, ◌==◌, if◌then◌else◌, ◌>>=◌, ◌≡◌, ◌≢◌,
}

-- An allocation behind a raw pointer.
pub record Allocation {ℓ} (A : Type ℓ) : Type ℓ where
  pub items : List A
  pub capacity : ℕ

-- The next address that the allocator gives out, and the allocations behind raw pointers.
pub record Heap {ℓ} (A : Type ℓ) : Type ℓ where
  pub next : ℕ
  pub raw : ℕ → Option (Allocation A)

-- `alloc::vec::Vec`.
pub record RustVec {ℓ} (A : Type ℓ) : Type ℓ where
  pub address : ℕ
  pub items : List A
  pub capacity : ℕ

-- The address 0 is the null pointer; `NonNull::dangling` is some other one.
abbrev pub dangling : ℕ
dangling = 1

module _ {ℓ} {A : Type ℓ} where
  unfoldable pub set_raw :
      (ℕ → Option (Allocation A)) → ℕ → Option (Allocation A) → ℕ → Option (Allocation A)
  set_raw raw address content a = if a == address then content else raw a

  allocate : Bool → ℕ → List A → Heap A → RustVec A × Heap A
  allocate true capacity items h = (record { address = dangling; items = items; capacity = 0 }, h)
  allocate false capacity items h = (
    record { address = h.next; items = items; capacity = capacity },
    record h { next = suc h.next },
  )

  -- `Vec::with_capacity`, with the elements that are put in: a capacity of 0 needs no allocation.
  unfoldable pub with_capacity : ℕ → List A → Heap A → RustVec A × Heap A
  unfolding allocate
  with_capacity capacity items h = allocate (capacity == 0) capacity items h

  -- `Vec::into_raw_parts`: the pointer, the length and the capacity.
  unfoldable pub rust_into_raw_parts : RustVec A → Heap A → (ℕ × ℕ × ℕ) × Heap A
  unfolding set_raw
  rust_into_raw_parts v h = (
    (v.address, length v.items, v.capacity),
    (if v.capacity == 0 then h else record h {
      raw = set_raw h.raw v.address (some (record { items = v.items; capacity = v.capacity }));
    }),
  )

  -- The allocation must be the one that the parts describe; else the behaviour is undefined.
  unfoldable pub take_allocation :
      ℕ → ℕ → ℕ → Option (Allocation A) → Heap A → Option (RustVec A × Heap A)
  unfolding set_raw
  take_allocation address len capacity none h = none
  take_allocation address len capacity (some found) h =
      if (found.capacity == capacity) && (length found.items == len)
      then some (
        record { address = address; items = found.items; capacity = capacity },
        record h { raw = set_raw h.raw address none },
      )
      else none

  -- `Vec::from_raw_parts`, with no value for undefined behaviour.
  unfoldable pub rust_from_raw_parts : ℕ → ℕ → ℕ → Heap A → Option (RustVec A × Heap A)
  unfolding take_allocation
  rust_from_raw_parts address len capacity h =
      if capacity == 0
      then (if len == 0
          then some (record { address = address; items = []; capacity = 0 }, h)
          else none)
      else take_allocation address len capacity (h.raw address) h

  push_into : Bool → Option ℕ → RustVec A → A → Heap A → Bool × RustVec A × Heap A
  push_into true grown v x h = (true, record v { items = v.items ++ (x ∷ []) }, h)
  push_into false none v x h = (false, v, h)
  push_into false (some capacity) v x h = (
    true,
    record { address = h.next; items = v.items ++ (x ∷ []); capacity = capacity },
    record h { next = suc h.next },
  )

  -- `Vec::push`: where the vector is full, `grow` says the new capacity, or that the allocation fails,
  -- upon which the call unwinds and leaves the vector. The flag says whether the call returned.
  unfoldable pub rust_push : (ℕ → Option ℕ) → RustVec A → A → Heap A → Bool × RustVec A × Heap A
  unfolding push_into
  rust_push grow v x h = push_into (ltb (length v.items) v.capacity) (grow v.capacity) v x h

  -- The last element, and those in front of it.
  unfoldable pub split_last : A → List A → List A × A
  split_last x [] = ([], x)
  split_last x (y ∷ xs) = let (front, last) = split_last y xs in (x ∷ front, last)

  pop_items : RustVec A → List A → Option A × RustVec A
  pop_items v [] = (none, v)
  pop_items v (x ∷ xs) =
      let (front, last) = split_last x xs in (some last, record v { items = front })

  -- `Vec::pop`.
  unfoldable pub rust_pop : RustVec A → Option A × RustVec A
  unfolding pop_items split_last
  rust_pop v = pop_items v v.items

  -- An owned vector: its pointer is not null, it holds no more than its capacity, and no raw pointer
  -- has its allocation.
  abbrev pub IsOwned : RustVec A → Heap A → Type ℓ
  IsOwned v h =
      (v.address ≢ 0) × (length v.items ≤ v.capacity) × ((0 < v.capacity) → h.raw v.address ≡ none)

  -- Every allocation behind a raw pointer was given out before.
  abbrev pub IsHeap : Heap A → Type ℓ
  IsHeap h = (0 < h.next) × ((a : ℕ) → h.next ≤ a → h.raw a ≡ none)
