-- ===== src/Explorers/Menu.antt =====
-- The menu of nodes: their order, and that none is lost.
use vault_vk.Common.{ℕ, suc, ◌==◌, ◌≤◌, ◌≡◌, refl, ◌∙◌, List, [], ◌∷◌, map, arith, if◌then◌else◌}
use vault_vk.Store.Defs.{NodeMeta}
use vault_vk.Explorers.Form.{insert_node, sorted_nodes}

-- No id is greater than the next one.
abbrev pub IsSorted : List ℕ → Type 0
IsSorted [] = Unit
IsSorted (a ∷ []) = Unit
IsSorted (a ∷ b ∷ cs) = (a ≤ b) × IsSorted (b ∷ cs)

abbrev pub count : ℕ → List ℕ → ℕ
count a [] = 0
count a (b ∷ bs) = if b == a then suc (count a bs) else count a bs

module _ {N : Type 0} where
  abbrev pub ids : List (NodeMeta N) → List ℕ
  ids = map (λ n. n.node_id)

  count-insert_node :
      (a : ℕ) (n : NodeMeta N) (nodes : List (NodeMeta N))
      → count a (ids (insert_node n nodes)) ≡ count a (ids (n ∷ nodes))
  unfolding insert_node
  count-insert_node a n [] = refl
  count-insert_node a n (m ∷ ms) = ground (arith, count-insert_node a n ms)

  insert_node-IsSorted :
      (n : NodeMeta N) (nodes : List (NodeMeta N))
      → IsSorted (ids nodes)
      → IsSorted (ids (insert_node n nodes))
  unfolding insert_node
  insert_node-IsSorted n [] h = tt
  insert_node-IsSorted n (m ∷ []) h = ground arith
  insert_node-IsSorted n (m ∷ k ∷ ms) h = ground (arith, insert_node-IsSorted n (k ∷ ms) h.1)

  -- The nodes of the menu are in the order of their ids, and each id is there as often as among the
  -- nodes of the store.
  pub sorted_nodes-IsSorted :
      (nodes : List (NodeMeta N))
      → IsSorted (ids (sorted_nodes nodes))
        × ((a : ℕ) → count a (ids (sorted_nodes nodes)) ≡ count a (ids nodes))
  unfolding sorted_nodes
  sorted_nodes-IsSorted [] = (tt, λ a. refl)
  sorted_nodes-IsSorted (n ∷ nodes) =
      let rest = sorted_nodes-IsSorted nodes in
      (
        insert_node-IsSorted n (sorted_nodes nodes) rest.0,
        λ a. count-insert_node a n (sorted_nodes nodes) ∙ ground (arith, rest.1 a),
      )
