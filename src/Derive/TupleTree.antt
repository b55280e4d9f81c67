-- ===== src/Derive/TupleTree.antt =====
-- `build_extern_c_type_tuple` of derive/src/utils.rs: the arguments of a function, of any number, are
-- passed in a tree of tuples, since the tuple conversions stop at `MAX_TUPLE_ARITY` elements.
pub mod Laws
pub mod Arity
use co.Prelude.{
  ℕ, zero, suc, Option, none, some, ◌>>=◌, List, [], ◌∷◌, ◌++◌, map, length, chunks, leb,
  if◌then◌else◌,
}

-- `MAX_TUPLE_ARITY`.
abbrev pub max_tuple_arity : ℕ
max_tuple_arity = 12

-- The printed tuple types. The Rust tuple and the C tuple of a node have one shape.
mutual
  pub data Tree {ℓ} (A : Type ℓ) : Type ℓ where
    leaf : A → Tree A
    tuple : Forest A → Tree A

  pub data Forest {ℓ} (A : Type ℓ) : Type ℓ where
    empty : Forest A
    tree_cons : Tree A → Forest A → Forest A

-- A node: its type, and the printed field accesses `.i.j.…` of the types in it.
pub record Node {ℓ} (A : Type ℓ) : Type ℓ where
  pub tree : Tree A
  pub accessors : List (List ℕ)

module _ {ℓ} {A : Type ℓ} where
  unfoldable pub leaves : List A → Forest A
  leaves [] = empty
  leaves (ty ∷ types) = tree_cons (leaf ty) (leaves types)

  unfoldable pub indices_from : ℕ → List A → List (List ℕ)
  indices_from i [] = []
  indices_from i (_ ∷ types) = (i ∷ []) ∷ indices_from (suc i) types

  -- A chunk of types is one tuple.
  unfoldable pub leaf_node : List A → Node A
  unfolding leaves indices_from
  leaf_node chunk = record { tree = tuple (leaves chunk); accessors = indices_from 0 chunk }

  unfoldable pub trees : List (Node A) → Forest A
  trees [] = empty
  trees (node ∷ nodes) = tree_cons node.tree (trees nodes)

  unfoldable pub accessors_from : ℕ → List (Node A) → List (List ℕ)
  accessors_from i [] = []
  accessors_from i (node ∷ nodes) =
      map (λ accessor. i ∷ accessor) node.accessors ++ accessors_from (suc i) nodes

  unfoldable pub pack_many : List (Node A) → Node A
  unfolding trees accessors_from
  pack_many nodes = record { tree = tuple (trees nodes); accessors = accessors_from 0 nodes }

  -- `pack_tuple_nodes`: a single node is promoted as it is.
  unfoldable pub pack_tuple_nodes : List (Node A) → Node A
  unfolding pack_many
  pack_tuple_nodes (node ∷ []) = node
  pack_tuple_nodes nodes = pack_many nodes

  -- One round of the `while` loop.
  unfoldable pub pack_level : List (Node A) → List (Node A)
  unfolding pack_tuple_nodes
  pack_level nodes = map pack_tuple_nodes (chunks max_tuple_arity nodes)

  -- `while nodes.len() > 1 { … }` and `nodes.pop()`, on fuel.
  unfoldable pub pack_loop : ℕ → List (Node A) → Option (Node A)
  unfolding pack_level
  pack_loop fuel [] = none
  pack_loop fuel (node ∷ []) = some node
  pack_loop zero (node ∷ node' ∷ nodes) = none
  pack_loop (suc fuel) (node ∷ node' ∷ nodes) = pack_loop fuel (pack_level (node ∷ node' ∷ nodes))

  unfoldable pub build_from : List A → Option (Node A)
  unfolding leaf_node pack_loop
  build_from [] = some (record { tree = tuple empty; accessors = [] })
  build_from types = pack_loop (length types) (map leaf_node (chunks max_tuple_arity types))

  -- `build_extern_c_type_tuple`; there is nothing to pack where there is no type.
  unfoldable pub build_extern_c_type_tuple : List A → Option (Node A)
  unfolding build_from
  build_extern_c_type_tuple types = build_from types

  -- A printed field access, followed in the tuple type.
  unfoldable pub forest_get : Forest A → ℕ → Option (Tree A)
  forest_get empty i = none
  forest_get (tree_cons t f) zero = some t
  forest_get (tree_cons t f) (suc i) = forest_get f i

  unfoldable pub follow : Tree A → List ℕ → Option A
  unfolding forest_get
  follow (leaf ty) [] = some ty
  follow (leaf ty) (_ ∷ _) = none
  follow (tuple f) [] = none
  follow (tuple f) (i ∷ is) = forest_get f i >>= (λ t. follow t is)
