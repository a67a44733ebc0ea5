-- ===== src/Explorers/Form.antt =====
-- The form of pages/Explorer.tsx: its list of nodes, its button and its texts.
use vault_vk.Common.{
  ℕ, Bool, true, false, not, ◌||◌, leb, List, [], ◌∷◌, ◌++◌, map, Option, none, some, length,
  if◌then◌else◌,
}
use vault_vk.Text.{Text, codes}
use vault_vk.Text.Decimal.{show}
use vault_vk.Store.Defs.{NodeMeta}
use vault_vk.Requests.Build.{Op, set, scan}
use vault_vk.Explorers.Page.{Explorer, can_run}

module _ {N : Type 0} where
  -- `[...nodes].sort((a, b) => a.node_id - b.node_id)`, which keeps the order of equal ids.
  unfoldable pub insert_node : NodeMeta N → List (NodeMeta N) → List (NodeMeta N)
  insert_node n [] = n ∷ []
  insert_node n (m ∷ ms) =
      let rest = insert_node n ms in if leb n.node_id m.node_id then n ∷ m ∷ ms else m ∷ rest

  unfoldable pub sorted_nodes : List (NodeMeta N) → List (NodeMeta N)
  unfolding insert_node
  sorted_nodes [] = []
  sorted_nodes (n ∷ nodes) = insert_node n (sorted_nodes nodes)

  -- The options of the menu: the value that each stands for, and its text.
  unfoldable pub node_options : List (NodeMeta N) → List (Option ℕ × Text)
  unfolding sorted_nodes
  node_options nodes =
      (none, codes "Leader (default)")
      ∷ map (λ n. (some n.node_id, codes "Node " ++ show n.node_id)) (sorted_nodes nodes)

  unfoldable pub run_disabled : Explorer N → Bool
  run_disabled e = e.loading || not (can_run e)

  unfoldable pub run_label : Explorer N → Text
  run_label e = if e.loading then codes "Running..." else codes "Run"

  unfoldable pub history_text : Explorer N → Text
  history_text e = codes "history " ++ show (length e.history) ++ codes "/100"

unfoldable pub key_placeholder : Op → Text
key_placeholder scan = codes "prefix (optional, for example user:)"
key_placeholder op = codes "key"

-- Whether the field for the value is there.
unfoldable pub has_value_field : Op → Bool
has_value_field set = true
has_value_field op = false
