-- ===== src/Derive/TupleTree/Arity.antt =====
-- No printed tuple is larger than the tuple conversions allow.
use co.Prelude.{
  ℕ, zero, suc, ◌≤◌, Bool, true, ◌&&◌, leb, some, List, [], ◌∷◌, ◌++◌, map, length, concat, chunks,
  concat-chunks, chunks_short, All, ◌≡◌, ◌∙◌, ap, refl, arith,
}
use co.Derive.TupleTree.{
  Tree, Forest, leaf, tuple, empty, tree_cons, Node, leaves, leaf_node, trees, pack_many,
  pack_tuple_nodes, pack_level, pack_loop, build_from, build_extern_c_type_tuple, max_tuple_arity,
}

module _ {ℓ} {A : Type ℓ} where
  unfoldable pub forest_length : Forest A → ℕ
  forest_length empty = 0
  forest_length (tree_cons t f) = suc (forest_length f)

  -- Every tuple in a tree has at most `max_tuple_arity` elements.
  unfoldable mutual
    pub is_bounded : Tree A → Bool
    is_bounded (leaf ty) = true
    is_bounded (tuple f) = leb (forest_length f) max_tuple_arity && all_bounded f

    pub all_bounded : Forest A → Bool
    all_bounded empty = true
    all_bounded (tree_cons t f) = is_bounded t && all_bounded f

  nodes_bounded : List (Node A) → Bool
  nodes_bounded [] = true
  nodes_bounded (node ∷ nodes) = is_bounded node.tree && nodes_bounded nodes

  leaves_lem :
      (types : List A)
      → (forest_length (leaves types) ≡ length types) × (all_bounded (leaves types) ≡ true)
  unfolding forest_length all_bounded is_bounded leaves
  leaves_lem [] = (refl, refl)
  leaves_lem (ty ∷ types) = let rest = leaves_lem types in (ap suc rest.0, rest.1)

  trees_lem :
      (nodes : List (Node A))
      → (forest_length (trees nodes) ≡ length nodes)
        × (all_bounded (trees nodes) ≡ nodes_bounded nodes)
  unfolding forest_length all_bounded trees nodes_bounded
  trees_lem [] = (refl, refl)
  trees_lem (node ∷ nodes) =
      let rest = trees_lem nodes in (ap suc rest.0, ap (λ b. is_bounded node.tree && b) rest.1)

  pack_many_bounded :
      (nodes : List (Node A)) (short : length nodes ≤ max_tuple_arity)
      (ok : nodes_bounded nodes ≡ true)
      → is_bounded (pack_many nodes).tree ≡ true
  unfolding pack_many is_bounded
  pack_many_bounded nodes short ok = ground (arith, trees_lem nodes, short, ok)

  pack_bounded :
      (nodes : List (Node A)) (short : length nodes ≤ max_tuple_arity)
      (ok : nodes_bounded nodes ≡ true)
      → is_bounded (pack_tuple_nodes nodes).tree ≡ true
  unfolding pack_tuple_nodes nodes_bounded
  pack_bounded [] short ok = pack_many_bounded [] short ok
  pack_bounded (node ∷ []) short ok = ground (arith, ok)
  pack_bounded (node ∷ node' ∷ nodes) short ok = pack_many_bounded (node ∷ node' ∷ nodes) short ok

  leaf_bounded :
      (chunk : List A) (short : length chunk ≤ max_tuple_arity)
      → is_bounded (leaf_node chunk).tree ≡ true
  unfolding leaf_node is_bounded
  leaf_bounded chunk short = ground (arith, leaves_lem chunk, short)

  nodes_bounded-append :
      (xs ys : List (Node A)) → nodes_bounded (xs ++ ys) ≡ (nodes_bounded xs && nodes_bounded ys)
  unfolding nodes_bounded
  nodes_bounded-append [] ys = refl
  nodes_bounded-append (x ∷ xs) ys = ground (arith, nodes_bounded-append xs ys)

  level_bounded :
      (chunks : List (List (Node A))) (short : All (λ chunk. length chunk ≤ max_tuple_arity) chunks)
      (ok : nodes_bounded (concat chunks) ≡ true)
      → nodes_bounded (map pack_tuple_nodes chunks) ≡ true
  unfolding nodes_bounded
  level_bounded [] short ok = refl
  level_bounded (chunk ∷ chunks) short ok = ground (
    arith,
    nodes_bounded-append chunk (concat chunks),
    pack_bounded chunk short.0,
    level_bounded chunks short.1,
  )

  leaf_level_bounded :
      (chunks : List (List A)) (short : All (λ chunk. length chunk ≤ max_tuple_arity) chunks)
      → nodes_bounded (map leaf_node chunks) ≡ true
  unfolding nodes_bounded
  leaf_level_bounded [] short = refl
  leaf_level_bounded (chunk ∷ chunks) short =
      ground (arith, leaf_bounded chunk short.0, leaf_level_bounded chunks short.1)

  loop_bounded :
      (fuel : ℕ) (nodes : List (Node A)) (node : Node A) (ok : nodes_bounded nodes ≡ true)
      (found : pack_loop fuel nodes ≡ some node)
      → is_bounded node.tree ≡ true
  unfolding pack_loop pack_level nodes_bounded
  loop_bounded fuel [] node ok found = ground arith
  loop_bounded fuel (n ∷ []) node ok found = ground (arith, ok, found)
  loop_bounded zero (n ∷ n' ∷ nodes) node ok found = ground arith
  loop_bounded (suc fuel) (n ∷ n' ∷ nodes) node ok found =
      let all = n ∷ n' ∷ nodes in
      loop_bounded fuel (pack_level all) node
        (level_bounded (chunks max_tuple_arity all) (chunks_short max_tuple_arity all)
          (ap nodes_bounded (concat-chunks 11 all) ∙ ok))
        found

  -- Whatever the number of types, no tuple that is printed has more than 12 elements, at any depth.
  pub build_extern_c_type_tuple_arity :
      (types : List A) (node : Node A) (found : build_extern_c_type_tuple types ≡ some node)
      → is_bounded node.tree ≡ true
  unfolding build_extern_c_type_tuple build_from is_bounded all_bounded forest_length
  build_extern_c_type_tuple_arity [] node found = ground (arith, found)
  build_extern_c_type_tuple_arity (ty ∷ types) node found =
      let all = ty ∷ types in
      loop_bounded (length all) (map leaf_node (chunks max_tuple_arity all)) node
        (leaf_level_bounded (chunks max_tuple_arity all) (chunks_short max_tuple_arity all)) found
