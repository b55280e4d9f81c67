-- ===== src/Derive/TupleTree/Laws.antt =====
-- The tuple tree holds every type once, in order, where its accessor says.
use co.Prelude.{
  ℕ, zero, suc, ◌≤◌, ◌<◌, Option, some, ◌>>=◌, List, [], ◌∷◌, ◌++◌, map, length, concat, chunks,
  concat-chunks, length-chunks_lt, length-chunks_loop, length-map, map-append, append_nil, ◌≡◌, ◌∙◌,
  sym, ap, refl, arith, cons_cong, append_cong, append_assoc, concat-chunks,
}
use co.Derive.TupleTree.{
  Tree, Forest, leaf, tuple, empty, tree_cons, Node, leaves, indices_from, leaf_node, trees,
  accessors_from, pack_many, pack_tuple_nodes, pack_level, pack_loop, build_from,
  build_extern_c_type_tuple, forest_get, follow, max_tuple_arity,
}

module _ {ℓ} {A : Type ℓ} where
  -- What the accessors of a node find in it.
  unfoldable pub fields : Node A → List (Option A)
  fields node = map (follow node.tree) node.accessors

  unfoldable pub all_fields : List (Node A) → List (Option A)
  unfolding fields
  all_fields [] = []
  all_fields (node ∷ nodes) = fields node ++ all_fields nodes

  leaves_shift :
      (t : Tree A) (f : Forest A) (i : ℕ) (types : List A)
      → map (follow (tuple (tree_cons t f))) (indices_from (suc i) types)
        ≡ map (follow (tuple f)) (indices_from i types)
  unfolding indices_from follow forest_get
  leaves_shift t f i [] = refl
  leaves_shift t f i (_ ∷ types) =
      ap (λ r. (forest_get f i >>= (λ u. follow u [])) ∷ r) (leaves_shift t f (suc i) types)

  leaf_fields : (types : List A) → fields (leaf_node types) ≡ map some types
  unfolding fields leaf_node leaves indices_from follow forest_get
  leaf_fields [] = refl
  leaf_fields (ty ∷ types) =
      ap (λ r. some ty ∷ r) (leaves_shift (leaf ty) (leaves types) 0 types ∙ leaf_fields types)

  paths_shift :
      (t : Tree A) (f : Forest A) (i : ℕ) (paths : List (List ℕ))
      → map (follow (tuple (tree_cons t f))) (map (λ a. suc i ∷ a) paths)
        ≡ map (follow (tuple f)) (map (λ a. i ∷ a) paths)
  unfolding follow forest_get
  paths_shift t f i [] = refl
  paths_shift t f i (path ∷ paths) = cons_cong refl (paths_shift t f i paths)

  paths_first :
      (t : Tree A) (f : Forest A) (paths : List (List ℕ))
      → map (follow (tuple (tree_cons t f))) (map (λ a. 0 ∷ a) paths) ≡ map (follow t) paths
  unfolding follow forest_get
  paths_first t f [] = refl
  paths_first t f (path ∷ paths) = ap (λ r. follow t path ∷ r) (paths_first t f paths)

  accessors_shift :
      (t : Tree A) (f : Forest A) (i : ℕ) (nodes : List (Node A))
      → map (follow (tuple (tree_cons t f))) (accessors_from (suc i) nodes)
        ≡ map (follow (tuple f)) (accessors_from i nodes)
  unfolding accessors_from
  accessors_shift t f i [] = refl
  accessors_shift t f i (node ∷ nodes) =
      map-append _ (map (λ a. suc i ∷ a) node.accessors) _
      ∙ (append_cong (paths_shift t f i node.accessors) (accessors_shift t f (suc i) nodes)
          ∙ sym (map-append _ (map (λ a. i ∷ a) node.accessors) _))

  pack_many_fields : (nodes : List (Node A)) → fields (pack_many nodes) ≡ all_fields nodes
  unfolding fields all_fields pack_many trees accessors_from
  pack_many_fields [] = refl
  pack_many_fields (node ∷ nodes) =
      map-append _ (map (λ a. 0 ∷ a) node.accessors) _
      ∙ append_cong (paths_first node.tree (trees nodes) node.accessors)
          (accessors_shift node.tree (trees nodes) 0 nodes ∙ pack_many_fields nodes)

  pack_fields : (nodes : List (Node A)) → fields (pack_tuple_nodes nodes) ≡ all_fields nodes
  unfolding pack_tuple_nodes all_fields
  pack_fields [] = pack_many_fields []
  pack_fields (node ∷ []) = sym (append_nil (fields node))
  pack_fields (node ∷ node' ∷ nodes) = pack_many_fields (node ∷ node' ∷ nodes)

  all_fields-append :
      (xs ys : List (Node A)) → all_fields (xs ++ ys) ≡ all_fields xs ++ all_fields ys
  unfolding all_fields
  all_fields-append [] ys = refl
  all_fields-append (x ∷ xs) ys =
      ap (λ r. fields x ++ r) (all_fields-append xs ys)
      ∙ sym (append_assoc (fields x) (all_fields xs) (all_fields ys))

  pack_all_fields :
      (chunks : List (List (Node A)))
      → all_fields (map pack_tuple_nodes chunks) ≡ all_fields (concat chunks)
  unfolding all_fields
  pack_all_fields [] = refl
  pack_all_fields (chunk ∷ chunks) =
      append_cong (pack_fields chunk) (pack_all_fields chunks)
      ∙ sym (all_fields-append chunk (concat chunks))

  level_fields : (nodes : List (Node A)) → all_fields (pack_level nodes) ≡ all_fields nodes
  unfolding pack_level
  level_fields nodes =
      pack_all_fields (chunks max_tuple_arity nodes) ∙ ap all_fields (concat-chunks 11 nodes)

  leaf_all_fields :
      (chunks : List (List A)) → all_fields (map leaf_node chunks) ≡ map some (concat chunks)
  unfolding all_fields
  leaf_all_fields [] = refl
  leaf_all_fields (chunk ∷ chunks) =
      append_cong (leaf_fields chunk) (leaf_all_fields chunks)
      ∙ sym (map-append some chunk (concat chunks))

  -- The loop ends: each round leaves fewer nodes, and at least one.
  pack_loop_total :
      (fuel : ℕ) (nodes : List (Node A)) (some_node : 0 < length nodes)
      (enough : length nodes ≤ fuel)
      → (node : Node A) × (pack_loop fuel nodes ≡ some node) × (fields node ≡ all_fields nodes)
  unfolding pack_loop pack_level all_fields
  pack_loop_total fuel [] some_node enough = ground arith
  pack_loop_total fuel (node ∷ []) some_node enough = (node, refl, sym (append_nil (fields node)))
  pack_loop_total zero (node ∷ node' ∷ nodes) some_node enough = ground arith
  pack_loop_total (suc fuel) (node ∷ node' ∷ nodes) some_node enough =
      let all = node ∷ node' ∷ nodes in
      let shorter = length-chunks_lt 10 all (omega arith) in
      let same = length-map pack_tuple_nodes (chunks max_tuple_arity all) in
      let (packed, found, kept) =
        pack_loop_total fuel (pack_level all) (omega arith) (omega arith) in
      (packed, found, kept ∙ level_fields all)

  -- The packing ends for any number of types. What it prints holds each type once, in order: the
  -- accessors, followed in the tuple, find exactly the types.
  pub build_extern_c_type_tuple_fields :
      (types : List A)
      → (node : Node A) × (build_extern_c_type_tuple types ≡ some node)
        × (map (follow node.tree) node.accessors ≡ map some types)
  unfolding build_extern_c_type_tuple build_from fields
  build_extern_c_type_tuple_fields [] = (record { tree = tuple empty; accessors = [] }, refl, refl)
  build_extern_c_type_tuple_fields (ty ∷ types) =
      let all = ty ∷ types in
      let few = length-chunks_loop (length all) 11 all in
      let same = length-map leaf_node (chunks max_tuple_arity all) in
      let (node, found, kept) =
        pack_loop_total (length all) (map leaf_node (chunks max_tuple_arity all)) (omega arith)
          (omega arith) in
      (
        node,
        found,
        kept
            ∙ (leaf_all_fields (chunks max_tuple_arity all) ∙ ap (map some) (concat-chunks 11 all)),
      )
