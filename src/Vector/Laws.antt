-- ===== src/Vector/Laws.antt =====
-- A stable vector behaves like the vector that it was made of, and its carrier gives that back.
use co.Prelude.{
  ℕ, ◌≤◌, ◌<◌, Bool, true, false, ◌||◌, Option, none, some, [], ◌∷◌, ◌++◌, length, ltb, ◌==◌,
  if◌then◌else◌, ◌>>=◌, Bool-cases, ◌≡◌, ◌≢◌, ◌↔◌, ◌∙◌, refl, ap, arith, inl, inr,
}
use co.Alloc.{Heap, RustVec, rust_from_raw_parts, rust_push, rust_pop, IsOwned, IsHeap}
use co.Alloc.Laws.{rust_from_raw_parts-rust_into_raw_parts, rust_push_lem, rust_pop_lem, Popped}
use co.Primitive.{equal}
use co.Vector.{
  Header, vec_new, is_null, header_from, rust_from, into_vec, some_vec, deref, vec_drop, own,
  owner_restore, owner_drop, push_owned, vec_push, pop_owned, vec_pop, c_vec_eq, c_vec_cmp, cmp,
  then_with,
}

module _ {ℓ} {A : Type ℓ} where
  -- `From<Vec> for RustVec` behind `From<RustVec> for Vec`.
  pub rust_from-header_from :
      (w : RustVec A) (h : Heap A) (owned : IsOwned w h)
      → let (v, h') = header_from w h in rust_from v h' ≡ some (w, h)
  unfolding rust_from header_from
  rust_from-header_from w h owned = rust_from_raw_parts-rust_into_raw_parts w h owned

  -- The owner puts the vector back, whatever was done to it.
  owner_drop_lem :
      (w : RustVec A) (h : Heap A)
      → owner_drop (record { target = vec_new; value = some w }) h ≡ some (header_from w h)
  unfolding owner_drop owner_restore vec_drop rust_from_raw_parts vec_new
  owner_drop_lem w h = refl

  own-header_from :
      (w : RustVec A) (h : Heap A) (owned : IsOwned w h)
      → let (v, h') = header_from w h in
        own v h' ≡ some (record { target = vec_new; value = some w }, h)
  unfolding own
  own-header_from w h owned = rw (rust_from-header_from w h owned) refl

  -- A vector that holds elements behind its pointer: `push` puts one behind them where it returns, and
  -- leaves them where the allocation fails and it unwinds; in both cases the vector owns its elements
  -- again, and the other allocations are what they were.
  pub vec_push_lem :
      (grow : ℕ → Option ℕ) (grows : (c d : ℕ) → grow c ≡ some d → c < d) (w : RustVec A) (x : A)
      (h : Heap A) (owned : IsOwned w h) (heap : IsHeap h)
      → let (v, given) = header_from w h in
        (returned : Bool) × (w' : RustVec A) × (h' : Heap A) × (let (v', given') =
            header_from w' h' in
          vec_push grow v x given ≡ some (returned, v', given'))
        × IsOwned w' h'
        × IsHeap h'
        × (h'.raw ≡ h.raw)
        × (w'.items ≡ (if returned then w.items ++ (x ∷ []) else w.items))
  unfolding vec_push push_owned
  vec_push_lem grow grows w x h owned heap =
      let (returned, w', h') = rust_push grow w x h in
      let (owned', heap', frame, items) = rust_push_lem grow grows w x h owned heap in
      (
        returned,
        w',
        h',
        ap (λ o. o >>= λ (owner, h'). push_owned grow x owner owner.value h')
              (own-header_from w h owned)
            ∙ ap (λ o. o >>= λ (target, h''). some (returned, target, h'')) (owner_drop_lem w' h'),
        owned',
        heap',
        frame,
        items,
      )

  -- `pop` takes the last element of such a vector, or says that there is none, and the vector owns what
  -- is left.
  pub vec_pop_lem :
      (w : RustVec A) (h : Heap A) (owned : IsOwned w h)
      → let (v, given) = header_from w h in
        (x : Option A) × (w' : RustVec A) × (let (v', given') = header_from w' h in
          vec_pop v given ≡ some (x, v', given'))
        × IsOwned w' h
        × Popped x w.items w'.items
  unfolding vec_pop pop_owned
  vec_pop_lem w h owned =
      let (x, w') = rust_pop w in
      let (owned', popped) = rust_pop_lem w h owned in
      (
        x,
        w',
        ap (λ o. o >>= λ (owner, h'). pop_owned owner owner.value h') (own-header_from w h owned)
            ∙ ap (λ o. o >>= λ (target, h'). some (x, target, h')) (owner_drop_lem w' h),
        owned',
        popped,
      )

  -- The slice that a vector derefs to.
  pub deref-header_from :
      (w : RustVec A) (h : Heap A) (owned : IsOwned w h)
      → let (v, given) = header_from w h in deref v given ≡ some w.items
  unfolding deref header_from
  deref-header_from w h owned =
      ap (λ o. o >>= λ (w, _). some w.items) (rust_from_raw_parts-rust_into_raw_parts w h owned)

  -- The parts of an owned vector pass the tests.
  pub header_from_accepted :
      (w : RustVec A) (h : Heap A) (owned : IsOwned w h)
      → let (c, given) = header_from w h in (is_null c || ltb c.capacity c.len) ≡ false
  unfolding is_null header_from
  header_from_accepted w h owned = tests w.address (length w.items) w.capacity owned.0 owned.1
    where
      tests :
          (address len capacity : ℕ)
          → address ≢ 0
          → len ≤ capacity
          → ((address == 0) || ltb capacity len) ≡ false
      tests address len capacity present fits = ground arith

  -- `into_vec` gives the vector of `from_vec` back, and leaves nothing behind.
  pub into_vec-header_from :
      (w : RustVec A) (h : Heap A) (owned : IsOwned w h)
      → let (c, given) = header_from w h in into_vec c given ≡ some (some w, h)
  unfolding into_vec is_null header_from some_vec
  into_vec-header_from w h owned =
      let present : (w.address == 0) ≡ false = not_null w.address owned.0 in
      let fits : ltb w.capacity (length w.items) ≡ false = ground (arith, owned.1) in
      rw (present, fits) (ap some_vec (rust_from_raw_parts-rust_into_raw_parts w h owned))
    where
      not_null : (a : ℕ) → a ≢ 0 → (a == 0) ≡ false
      not_null a ne = ground (arith, ne)

  -- `into_vec` answers `None` exactly to a null pointer and to a length above the capacity.
  pub into_vec_none :
      (c : Header) (h : Heap A)
      → ((is_null c || ltb c.capacity c.len) ≡ true) ↔ (into_vec c h ≡ some (none, h))
  unfolding into_vec is_null some_vec
  into_vec_none c h = (
    (λ bad. ground arith),
    λ none. elim (Bool-cases (is_null c || ltb c.capacity c.len)) [
      | inl bad ↦ bad
      | inr good ↦ absurd (
          gives_vec (rust_from_raw_parts c.address c.len c.capacity h) (ground (arith, none, good)))
    ],
  )
    where
      gives_vec :
          (r : Option (RustVec A × Heap A))
          → ◌≢◌ {A = Option (Option (RustVec A) × Heap A)} (some_vec r) (some (none, h))
      gives_vec none = λ e. cc
      gives_vec (some (v, h')) = λ e. cc

-- Two carriers are equal exactly if they compare as equal; one with a null pointer is neither.
pub c_vec_eq_iff_cmp : (a b : Header) → (c_vec_eq a b ≡ true) ↔ (c_vec_cmp a b ≡ some equal)
unfolding c_vec_eq c_vec_cmp cmp then_with is_null
c_vec_eq_iff_cmp a b = ground arith
