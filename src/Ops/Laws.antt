-- ===== src/Ops/Laws.antt =====
-- What a call does with the stores of its arguments.
use co.Prelude.{
  Bool, true, false, ◌&&◌, Option, none, some, is_some, if◌then◌else◌, List, [], ◌∷◌, ◌≡◌, ◌∙◌,
  refl, sym, ap, arith, All,
}
use co.Store.{drop_option}
use co.Ops.{
  Argument, Carriers, Stores, default_stores, encode_args, sync_args, encode_dropped, filter_ok,
  soft_call, call,
}

-- Each store is synced once, from the first to the last, and answers.
pub data IsSynced {ω} {W : Type ω}
    : (args : List (Argument W)) → Stores args → W → List Bool → W → Type (ω ⊔ 1) where
  done : (w : W) → IsSynced [] tt w [] w
  synced :
      (a : Argument W) (args : List (Argument W)) (s : a.Stored) (stores : Stores args) (w w' : W)
      (oks : List Bool)
      → IsSynced args stores (a.store.sync s w).1 oks w'
      → IsSynced (a ∷ args) (s, stores) w (is_some (a.store.sync s w).0 ∷ oks) w'

unfoldable pub all_ok : List Bool → Bool
all_ok [] = true
all_ok (ok ∷ oks) = ok && all_ok oks

sync_args-IsSynced {ω} :
    {W : Type ω} (sync_ok : Bool) (args : List (Argument W)) (stores : Stores args) (w : W)
    → (oks : List Bool) × IsSynced args stores w oks (sync_args sync_ok args stores w).1
      × ((sync_args sync_ok args stores w).0 ≡ (sync_ok && all_ok oks))
unfolding sync_args all_ok
sync_args-IsSynced sync_ok [] stores w = ([], done w, ground arith)
sync_args-IsSynced sync_ok (a ∷ args) (s, stores) w =
    let (r, w') = a.store.sync s w in
    let (oks, steps, answer) = sync_args-IsSynced (sync_ok && is_some r) args stores w' in
    (is_some r ∷ oks, synced a args s stores w _ oks steps, ground (arith, answer))

module _ {ω β} {W : Type ω} {B : Type β} {U : Type 0} (args : List (Argument W))
    (decode : U → W → Option B × W) (drop_value : B → W → W) where
  filter_ok_lem :
      (ok : Bool) (value : Option B) (w : W)
      → filter_ok drop_value ok value w
        ≡ (if ok then (value, w) else (none, drop_option drop_value value w))
  unfolding filter_ok drop_option
  filter_ok_lem true none w = refl
  filter_ok_lem true (some b) w = refl
  filter_ok_lem false none w = refl
  filter_ok_lem false (some b) w = refl

  -- Behind the call of the function each store is synced once, in the order of the arguments and also
  -- behind one that fails, and then the result is decoded. The call answers what was decoded if every
  -- store was synced; otherwise it answers nothing, and a value that was decoded is dropped.
  pub soft_call_lem :
      (self : Carriers args → Stores args → W → U × (Stores args × W)) (w : W)
      → let (cs, (stores, w1)) = encode_args args (default_stores args) w in
        let (result, (stores', w2)) = self cs stores w1 in
        (oks : List Bool) × (w3 : W) × IsSynced args stores' w2 oks w3
        × (soft_call args decode drop_value self w ≡ (
            let (value, w4) = decode result w3 in
            if all_ok oks then (value, w4) else (none, drop_option drop_value value w4)))
  unfolding soft_call
  soft_call_lem self w =
      let (cs, (stores, w1)) = encode_args args (default_stores args) w in
      let (result, (stores', w2)) = self cs stores w1 in
      let (sync_ok, w3) = sync_args true args stores' w2 in
      let (oks, steps, answer) = sync_args-IsSynced true args stores' w2 in
      let (value, w4) = decode result w3 in
      (
        oks,
        w3,
        steps,
        filter_ok_lem sync_ok value w4
            ∙ ap (λ ok. if ok then (value, w4) else (none, drop_option drop_value value w4)) answer,
      )

-- An empty store: syncing it succeeds, and neither syncing nor dropping it touches the memory.
pub record IsEmptyStore {ω} {W : Type ω} (a : Argument W) : Type ω where
  pub sync_empty : (s : a.Stored) (w : W) → a.store.sync s w ≡ (some tt, w)
  pub drop_empty : (s : a.Stored) (w : W) → a.store.drop s w ≡ w

encode_args-encode_dropped {ω} :
    {W : Type ω} (args : List (Argument W)) (empty : All IsEmptyStore args) (w : W)
    → ((encode_args args (default_stores args) w).0 ≡ (encode_dropped args w).0)
      × ((encode_args args (default_stores args) w).1.1 ≡ (encode_dropped args w).1)
unfolding encode_args encode_dropped default_stores
encode_args-encode_dropped [] empty w = (refl, refl)
encode_args-encode_dropped (a ∷ args) (here, rest) w =
    let (c, (s, w')) = a.soft_encode a.store.default w in
    let (cs, world) = encode_args-encode_dropped args rest w' in
    let moved = ap (λ v. encode_dropped args v) (sym (here.drop_empty s w')) in
    (ap (λ t. (c, t)) (cs ∙ ap (λ t. t.0) moved), world ∙ ap (λ t. t.1) moved)

sync_args_empty {ω} :
    {W : Type ω} (args : List (Argument W)) (empty : All IsEmptyStore args) (stores : Stores args)
    (w : W)
    → sync_args true args stores w ≡ (true, w)
unfolding sync_args
sync_args_empty [] empty stores w = refl
sync_args_empty (a ∷ args) (here, rest) (s, stores) w =
    ap (λ t. sync_args (is_some t.0) args stores t.1) (here.sync_empty s w)
    ∙ sync_args_empty args rest stores w

module _ {ω β} {W : Type ω} {B : Type β} {U : Type 0} (args : List (Argument W))
    (decode : U → W → Option B × W) (drop_value : B → W → W) where
  filter_ok-true : (value : Option B) (w : W) → filter_ok drop_value true value w ≡ (value, w)
  unfolding filter_ok
  filter_ok-true none w = refl
  filter_ok-true (some b) w = refl

  -- Where the stores of all arguments are empty, `soft_call` is `call`.
  pub soft_call-call :
      (empty : All IsEmptyStore args) (self : Carriers args → W → U × W) (w : W)
      → soft_call args decode drop_value
          (λ cs stores v. let (u, v') = self cs v in (u, (stores, v')))
          w
        ≡ call args decode drop_value self w
  unfolding soft_call call
  soft_call-call empty self w =
      let (cs, (stores, w1)) = encode_args args (default_stores args) w in
      let (result, w2) = self cs w1 in
      let (value, w4) = decode result w2 in
      let (same, world) = encode_args-encode_dropped args empty w in
      ap (λ t. let (v, v') = decode result t.1 in filter_ok drop_value t.0 v v')
        (sync_args_empty args empty stores w2)
      ∙ filter_ok-true value w4
      ∙ ap (λ t. let (u, v) = self t w1 in decode u v) same
      ∙ ap (λ t. let (u, v) = self (encode_dropped args w).0 t in decode u v) world
