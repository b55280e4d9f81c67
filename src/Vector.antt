-- ===== src/Vector.antt =====
-- src/vec.rs: the vector `Vec` with a stable layout, which owns its elements through a raw pointer, and
-- its carrier `CVec`. No value stands for undefined behaviour.
pub mod Laws
use co.Prelude.{
  ℕ, zero, suc, ◌+◌, ◌≤◌, Bool, true, false, not, ◌&&◌, ◌||◌, Option, none, some, map_some, List,
  [], ◌∷◌, ◌++◌, length, ltb, ◌==◌, if◌then◌else◌, ◌>>=◌,
}
use co.Alloc.{
  Allocation, Heap, RustVec, dangling, rust_into_raw_parts, rust_from_raw_parts, rust_push,
  rust_pop,
}
use co.Primitive.{Ordering, less, equal, greater}

-- `struct Vec`, and `struct CVec`, whose pointer may be null.
pub record Header : Type 0 where
  pub address : ℕ
  pub capacity : ℕ
  pub len : ℕ

-- `Vec::new`, for elements that are not zero-sized.
unfoldable pub vec_new : Header
vec_new = record { address = dangling; capacity = 0; len = 0 }

-- `CVec::null`.
unfoldable pub c_vec_null : Header
c_vec_null = record { address = 0; capacity = 0; len = 0 }

-- The null test of `Niche::is_niche`, and of the conversions.
unfoldable pub is_null : Header → Bool
is_null v = v.address == 0

-- `PartialEq for CVec`.
unfoldable pub c_vec_eq : Header → Header → Bool
unfolding is_null
c_vec_eq a b =
    not (is_null a) && (a.address == b.address && (a.len == b.len && a.capacity == b.capacity))

-- `Ord::cmp` of numbers and pointers.
unfoldable pub cmp : ℕ → ℕ → Ordering
cmp a b = if ltb a b then less else if a == b then equal else greater

-- `Ordering::then_with`.
unfoldable pub then_with : Ordering → Ordering → Ordering
then_with equal next = next
then_with less next = less
then_with greater next = greater

-- `PartialOrd for CVec`.
unfoldable pub c_vec_cmp : Header → Header → Option Ordering
unfolding is_null cmp then_with
c_vec_cmp a b =
    if is_null a || is_null b
    then none
    else some (
        then_with (then_with (cmp a.address b.address) (cmp a.len b.len))
          (cmp a.capacity b.capacity))

-- `struct VecOwner`.
pub record VecOwner {ℓ} (A : Type ℓ) : Type ℓ where
  pub target : Header
  pub value : Option (RustVec A)

module _ {ℓ} {A : Type ℓ} where
  -- `From<RustVec> for Vec`, and `CVec::from_vec`: the parts of the vector.
  unfoldable pub header_from : RustVec A → Heap A → Header × Heap A
  unfolding rust_into_raw_parts
  header_from v h =
      let (parts, h') = rust_into_raw_parts v h in
      let (address, len, capacity) = parts in
      (record { address = address; capacity = capacity; len = len }, h')

  -- `From<Vec> for RustVec`.
  unfoldable pub rust_from : Header → Heap A → Option (RustVec A × Heap A)
  unfolding rust_from_raw_parts
  rust_from v h = rust_from_raw_parts v.address v.len v.capacity h

  -- `Some` of a reconstructed vector.
  unfoldable pub some_vec : Option (RustVec A × Heap A) → Option (Option (RustVec A) × Heap A)
  some_vec none = none
  some_vec (some (v, h)) = some (some v, h)

  -- `CVec::into_vec`: `some none` is the answer `None`.
  unfoldable pub into_vec : Header → Heap A → Option (Option (RustVec A) × Heap A)
  unfolding is_null rust_from_raw_parts some_vec
  into_vec c h =
      if is_null c
      then some (none, h)
      else if ltb c.capacity c.len
      then some (none, h)
      else some_vec (rust_from_raw_parts c.address c.len c.capacity h)

  -- `Deref for Vec`: the elements behind the pointer.
  unfoldable pub deref : Header → Heap A → Option (List A)
  unfolding rust_from_raw_parts
  deref v h = rust_from_raw_parts v.address v.len v.capacity h >>= λ (w, _). some w.items

  -- `Drop for Vec`.
  unfoldable pub vec_drop : Header → Heap A → Option (Heap A)
  unfolding rust_from_raw_parts
  vec_drop v h = rust_from_raw_parts v.address v.len v.capacity h >>= λ (_, h'). some h'

  -- `core::mem::take(owner.target).into()`: the target is left empty.
  unfoldable pub own : Header → Heap A → Option (VecOwner A × Heap A)
  unfolding rust_from vec_new
  own target h =
      rust_from target h >>= λ (v, h'). some (record { target = vec_new; value = some v }, h')

  owner_restore : Header → Option (RustVec A) → Heap A → Option (Header × Heap A)
  owner_restore target none h = some (target, h)
  owner_restore target (some v) h =
      let (restored, h') = header_from v h in vec_drop target h' >>= λ h''. some (restored, h'')

  -- `Drop for VecOwner`: the assignment drops what the target had.
  unfoldable pub owner_drop : VecOwner A → Heap A → Option (Header × Heap A)
  unfolding owner_restore header_from vec_drop
  owner_drop owner h = owner_restore owner.target owner.value h

  push_owned :
      (ℕ → Option ℕ)
      → A
      → VecOwner A
      → Option (RustVec A)
      → Heap A
      → Option (Bool × Header × Heap A)
  push_owned grow x owner none h = none
  push_owned grow x owner (some v) h =
      let (returned, v', h') = rust_push grow v x h in
      owner_drop (record owner { value = some v' }) h' >>= λ (target, h'').
      some (returned, target, h'')

  -- `Vec::push`: whether it returned, or unwound, and the vector that is left in both cases.
  unfoldable pub vec_push : (ℕ → Option ℕ) → Header → A → Heap A → Option (Bool × Header × Heap A)
  unfolding own push_owned rust_push owner_drop
  vec_push grow self x h = own self h >>= λ (owner, h'). push_owned grow x owner owner.value h'

  pop_owned : VecOwner A → Option (RustVec A) → Heap A → Option (Option A × Header × Heap A)
  pop_owned owner none h = none
  pop_owned owner (some v) h =
      let (x, v') = rust_pop v in
      owner_drop (record owner { value = some v' }) h >>= λ (target, h'). some (x, target, h')

  -- `Vec::pop`.
  unfoldable pub vec_pop : Header → Heap A → Option (Option A × Header × Heap A)
  unfolding own pop_owned rust_pop owner_drop
  vec_pop self h = own self h >>= λ (owner, h'). pop_owned owner owner.value h'
