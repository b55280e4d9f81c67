-- ===== src/Store.antt =====
-- The `Store` trait of src/stored.rs and its structural implementations in src/sync.rs and
-- src/tuple.rs. A store holds what a conversion has to write back; syncing it, and dropping it,
-- change the memory that the conversion borrowed from.
pub mod Laws
use co.Prelude.{
  Bool, true, false, Option, none, some, is_some, if◌then◌else◌, Result, ok, err, List, [], ◌∷◌,
}

-- `trait Store`, with the `Default` value that `mem::take` leaves and with what `Drop` does. `W` is
-- the state of the memory.
pub record Store {ω σ} (W : Type ω) (S : Type σ) : Type (ω ⊔ σ) where
  pub default : S
  pub sync : S → W → Option (Unit {0}) × W
  pub drop : S → W → W

-- `bool::then_some(())`.
abbrev pub then_some : Bool → Option (Unit {0})
then_some true = some tt
then_some false = none

-- What dropping an `Option` does, from what dropping its value does.
unfoldable pub drop_option {ω ρ} : {W : Type ω} {R : Type ρ} → (R → W → W) → Option R → W → W
drop_option drop_value none w = w
drop_option drop_value (some v) w = drop_value v w

module _ {ω} {W : Type ω} where
  -- `Store for ()`.
  unfoldable pub unit_store : Store W (Unit {0})
  unit_store = record { default = tt; sync = λ s w. (some tt, w); drop = λ s w. w }

module _ {ω σ} {W : Type ω} {S : Type σ} (store : Store W S) where
  -- The loop of `Store for Box<[D]>` and `Store for ArrayStore<D, N>`: a failure is remembered, and
  -- the stores behind it are synced all the same.
  unfoldable pub sync_loop : Bool → List S → W → Bool × W
  sync_loop valid [] w = (valid, w)
  sync_loop valid (s ∷ ss) w =
      let (r, w') = store.sync s w in sync_loop (if is_some r then valid else false) ss w'

  unfoldable pub slice_sync : List S → W → Option (Unit {0}) × W
  unfolding sync_loop
  slice_sync ss w = let (valid, w') = sync_loop true ss w in (then_some valid, w')

  unfoldable pub drop_all : List S → W → W
  drop_all [] w = w
  drop_all (s ∷ ss) w = drop_all ss (store.drop s w)

  -- `Store for Box<[D]>`; the default slice is empty.
  unfoldable pub slice_store : Store W (List S)
  unfolding slice_sync drop_all
  slice_store = record { default = []; sync = slice_sync; drop = drop_all }

  option_sync : Option S → W → Option (Unit {0}) × W
  option_sync (some s) w = store.sync s w
  option_sync none w = (some tt, w)

  option_drop : Option S → W → W
  option_drop (some s) w = store.drop s w
  option_drop none w = w

  -- `Store for Option<T>`.
  unfoldable pub option_store : Store W (Option S)
  unfolding option_sync option_drop
  option_store = record { default = none; sync = option_sync; drop = option_drop }

module _ {ω σ τ} {W : Type ω} {A : Type σ} {B : Type τ} (a : Store W A) (b : Store W B) where
  result_sync : Result A B → W → Option (Unit {0}) × W
  result_sync (ok s) w = a.sync s w
  result_sync (err s) w = b.sync s w

  result_drop : Result A B → W → W
  result_drop (ok s) w = a.drop s w
  result_drop (err s) w = b.drop s w

  -- `Store for Result<T, E>`. A bare result has no default; `option_result_store` is what is used.
  abbrev result_store : A → Store W (Result A B)
  result_store unused = record { default = ok unused; sync = result_sync; drop = result_drop }

  -- `Option<Result<T, E>>`, the store of a conversion of `Result`.
  unfoldable pub option_result_store : Store W (Option (Result A B))
  unfolding option_store result_sync result_drop
  option_result_store = option_store (result_store a.default)

  pair_continue : Option (Unit {0}) → B → W → Option (Unit {0}) × W
  pair_continue (some _) s w = b.sync s w
  pair_continue none s w = (none, b.drop s w)

  -- `Store for (A, B)`: the first failure returns, and drops what is left.
  unfoldable pub pair_sync : A × B → W → Option (Unit {0}) × W
  unfolding pair_continue
  pair_sync (s, t) w = let (r, w') = a.sync s w in pair_continue r t w'

  unfoldable pub pair_store : Store W (A × B)
  unfolding pair_sync
  pair_store = record {
    default = (a.default, b.default);
    sync = pair_sync;
    drop = λ s w. b.drop s.1 (a.drop s.0 w);
  }
