-- ===== src/Prelude.antt =====
-- The names that the other modules share: the libraries', passed on, and those of the children.
mod Tests
mod Lists
mod Int
mod Sets
pub use Tests.*
pub use Lists.*
pub use Int.*
pub use Sets.*
pub use Prim.Native.Nat.{ℕ, zero, suc, ◌+◌, ◌-◌, ◌*◌, ◌/◌, ◌%◌, ◌^◌, ◌≤◌, ◌<◌}
pub use mathlib.Core.Path.{◌≡◌, refl, sym, ap, ◌∙◌}
pub use mathlib.Core.Logic.{◌≢◌, ◌↔◌, ◌⊎◌, inl, inr}
pub use mathlib.Core.Bool.{Bool, true, false, not, ◌&&◌, ◌||◌}
pub use mathlib.Core.Option.{Option, none, some}
pub use mathlib.Core.List.{List, [], ◌∷◌, ◌++◌, map}
pub use native.Mathlib.Omega.{arith}

-- Rust's `?` on `Option`.
infixl 5 ◌>>=◌
abbrev pub ◌>>=◌ {ℓ κ} : {A : Type ℓ} {B : Type κ} → Option A → (A → Option B) → Option B
none >>= f = none
some a >>= f = f a

-- `Option::is_some` and `Option::is_none`.
abbrev pub is_some {ℓ} : {A : Type ℓ} → Option A → Bool
is_some none = false
is_some (some a) = true

-- `Option::map`.
abbrev pub map_some {ℓ κ} : {A : Type ℓ} {B : Type κ} → (A → B) → Option A → Option B
map_some f none = none
map_some f (some a) = some (f a)

-- The standard library's `Result<T, E>`.
pub data Result {ℓ κ} (T : Type ℓ) (E : Type κ) : Type (ℓ ⊔ κ) where
  ok : T → Result T E
  err : E → Result T E

pub Result-cases {ℓ κ} :
    {T : Type ℓ} {E : Type κ} (r : Result T E) → ((t : T) × (r ≡ ok t)) ⊎ ((e : E) × (r ≡ err e))
Result-cases (ok t) = inl (t, refl)
Result-cases (err e) = inr (e, refl)

ok_or {ℓ κ} : {T : Type ℓ} {E : Type κ} → T → Result T E → T
ok_or default (ok t) = t
ok_or default (err e) = default

pub ok_inj {ℓ κ} : {T : Type ℓ} {E : Type κ} {t u : T} → ◌≡◌ {A = Result T E} (ok t) (ok u) → t ≡ u
unfolding ok_or
ok_inj {t = t} h = ap (ok_or t) h

-- Rust's `?` on `Result`.
abbrev pub and_then {ℓ κ μ} :
    {T : Type ℓ} {U : Type κ} {E : Type μ} → Result T E → (T → Result U E) → Result U E
and_then (ok t) f = f t
and_then (err e) f = err e

-- What a chain that succeeds went through.
pub and_then-ok {ℓ κ μ} :
    {T : Type ℓ} {U : Type κ} {E : Type μ} (r : Result T E) (f : T → Result U E) (u : U)
    → and_then r f ≡ ok u
    → (t : T) × (r ≡ ok t) × (f t ≡ ok u)
and_then-ok (ok t) f u h = (t, refl, h)
and_then-ok (err e) f u h = cc

-- Where a chain that fails has failed.
pub and_then-err {ℓ κ μ} :
    {T : Type ℓ} {U : Type κ} {E : Type μ} (r : Result T E) (f : T → Result U E) (e : E)
    → and_then r f ≡ err e
    → (r ≡ err e) ⊎ ((t : T) × (f t ≡ err e))
and_then-err (ok t) f e h = inr (t, h)
and_then-err (err e') f e h = inl (ground arith)
