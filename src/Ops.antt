-- ===== src/Ops.antt =====
-- Calls of C functions with Rust values: `call` and `soft_call` of the traits `CFn0` to `CFn12` in
-- src/ops.rs, for any number of arguments. `W` is the state of the memory.
pub mod Laws
pub mod Borrowed
use co.Prelude.{Bool, true, false, ◌&&◌, Option, none, some, is_some, List, [], ◌∷◌}
use co.Store.{Store}

-- An argument, with the store that its conversion uses and `soft_encode` of its value.
pub record Argument {ω} (W : Type ω) : Type (ω ⊔ 1) where
  pub Carrier : Type 0
  pub Stored : Type 0
  pub store : Store W Stored
  pub soft_encode : Stored → W → Carrier × (Stored × W)

-- The carriers of the arguments, of which the function is called with one each.
abbrev pub Carriers {ω} : {W : Type ω} → List (Argument W) → Type 0
Carriers [] = Unit {0}
Carriers (a ∷ args) = a.Carrier × Carriers args

-- One store for each argument.
abbrev pub Stores {ω} : {W : Type ω} → List (Argument W) → Type 0
Stores [] = Unit {0}
Stores (a ∷ args) = a.Stored × Stores args

-- `let mut $arg_ty = Default::default();`
unfoldable pub default_stores {ω} : {W : Type ω} (args : List (Argument W)) → Stores args
default_stores [] = tt
default_stores (a ∷ args) = (a.store.default, default_stores args)

-- `soft_encode($arg, &mut $arg_ty)`, from the left to the right.
unfoldable pub encode_args {ω} :
    {W : Type ω} (args : List (Argument W)) → Stores args → W → Carriers args × (Stores args × W)
encode_args [] stores w = (tt, (tt, w))
encode_args (a ∷ args) (s, stores) w =
    let (c, (s', w')) = a.soft_encode s w in
    let (cs, (stores', w'')) = encode_args args stores w' in ((c, cs), ((s', stores'), w''))

-- `sync_ok &= Store::sync($arg_ty).is_some();`
unfoldable pub sync_args {ω} :
    {W : Type ω} → Bool → (args : List (Argument W)) → Stores args → W → Bool × W
sync_args sync_ok [] stores w = (sync_ok, w)
sync_args sync_ok (a ∷ args) (s, stores) w =
    let (r, w') = a.store.sync s w in sync_args (sync_ok && is_some r) args stores w'

-- The stores that `encode` leaves are dropped behind the call of each.
unfoldable pub encode_dropped {ω} : {W : Type ω} (args : List (Argument W)) → W → Carriers args × W
encode_dropped [] w = (tt, w)
encode_dropped (a ∷ args) w =
    let (c, (s, w')) = a.soft_encode a.store.default w in
    let (cs, w'') = encode_dropped args (a.store.drop s w') in ((c, cs), w'')

-- `Option::filter` with a test of the Boolean; a value that is refused is dropped.
unfoldable pub filter_ok {ω β} :
    {W : Type ω} {B : Type β} → (B → W → W) → Bool → Option B → W → Option B × W
filter_ok drop_value sync_ok none w = (none, w)
filter_ok drop_value true (some b) w = (some b, w)
filter_ok drop_value false (some b) w = (none, drop_value b w)

module _ {ω β} {W : Type ω} {B : Type β} {U : Type 0} (args : List (Argument W))
    (decode : U → W → Option B × W) (drop_value : B → W → W) where
  -- `soft_call`. The function may change what the carriers point to, in the memory or in the stores.
  unfoldable pub soft_call :
      (Carriers args → Stores args → W → U × (Stores args × W)) → W → Option B × W
  unfolding default_stores encode_args sync_args filter_ok
  soft_call self w =
      let (cs, (stores, w1)) = encode_args args (default_stores args) w in
      let (result, (stores', w2)) = self cs stores w1 in
      let (sync_ok, w3) = sync_args true args stores' w2 in
      let (value, w4) = decode result w3 in filter_ok drop_value sync_ok value w4

  -- `call`, where no store holds anything.
  unfoldable pub call : (Carriers args → W → U × W) → W → Option B × W
  unfolding encode_dropped
  call self w =
      let (cs, w1) = encode_dropped args w in let (result, w2) = self cs w1 in decode result w2
