-- ===== src/Notifications/Watch.antt =====
-- What the effects of `App` announce when the connection or the nodes change.
use vault_vk.Common.{
  ℕ, Bool, true, false, not, List, [], ◌∷◌, ◌++◌, Option, none, some, ◌==◌, leb, length,
  if◌then◌else◌,
}
use vault_vk.Text.{Text, codes}
use vault_vk.Text.Decimal.{show}
use vault_vk.Store.Defs.{NodeMeta, WsStatus, connecting, opened, closed}
use vault_vk.Quorum.{quorum, healthy_count, find_leader}
use vault_vk.Notifications.Centre.{NotificationLevel, info, success, warn, error, Notice}

abbrev notice : Text → Text → NotificationLevel → Notice
notice title detail level = record { title = title; detail = detail; level = level }

abbrev pub same_status : WsStatus → WsStatus → Bool
same_status connecting connecting = true
same_status opened opened = true
same_status closed closed = true
same_status s t = false

-- `Boolean` equality, `a === b`.
abbrev pub same_bool : Bool → Bool → Bool
same_bool true b = b
same_bool false b = not b

abbrev pub gateway_notice : WsStatus → Notice
gateway_notice opened =
    notice (codes "Gateway Connection Restored") (codes "Live event stream is active.") success
gateway_notice connecting =
    notice (codes "Gateway Reconnecting") (codes "Attempting to restore stream from backend.") warn
gateway_notice closed =
    notice (codes "Gateway Connection Closed")
      (codes "Live stream is offline. Metrics will use fallback behavior.") error

-- The effect on `wsStatus`, with the status of `prevWsStatusRef`.
unfoldable pub status_notices : WsStatus → WsStatus → List Notice
status_notices prev ws_status =
    if same_status prev ws_status then [] else gateway_notice ws_status ∷ []

module _ {N : Type 0} where
  -- `new Map(nodes.map((node) => [node.node_id, node])).get(id)`: of equal keys the last one counts.
  unfoldable pub map_get : ℕ → List (NodeMeta N) → Option (NodeMeta N)
  map_get id [] = none
  map_get id (n ∷ nodes) = elim (map_get id nodes) [
    | some m ↦ some m
    | none ↦ if n.node_id == id then some n else none
  ]

  abbrev address : NodeMeta N → Text
  address node = node.host ++ codes ":" ++ show node.port

  abbrev pub recovered : NodeMeta N → Notice
  recovered node =
      notice (codes "Node " ++ show node.node_id ++ codes " Recovered")
        (address node ++ codes " is healthy again.") success

  abbrev pub unreachable : NodeMeta N → Notice
  unreachable node =
      notice (codes "Node " ++ show node.node_id ++ codes " Unreachable")
        (address node ++ codes " stopped responding.") error

  -- The body of `nodes.forEach`.
  unfoldable pub node_notice : List (NodeMeta N) → NodeMeta N → List Notice
  node_notice prev_nodes node = elim (map_get node.node_id prev_nodes) [
    | none ↦ []
    | some old_node ↦
        if same_bool old_node.healthy node.healthy
        then []
        else if node.healthy
        then recovered node ∷ []
        else unreachable node ∷ []
  ]

  unfoldable pub node_notices : List (NodeMeta N) → List (NodeMeta N) → List Notice
  unfolding node_notice
  node_notices prev_nodes [] = []
  node_notices prev_nodes (node ∷ nodes) =
      node_notice prev_nodes node ++ node_notices prev_nodes nodes

  abbrev pub leader_id : List (NodeMeta N) → Option ℕ
  leader_id nodes = elim (find_leader nodes) [ none ↦ none | some n ↦ some n.node_id ]

abbrev pub same_id : Option ℕ → Option ℕ → Bool
same_id none none = true
same_id (some a) (some b) = a == b
same_id a b = false

abbrev pub leader_updated : ℕ → Notice
leader_updated id =
    notice (codes "Leader Updated") (codes "Node " ++ show id ++ codes " is now the active leader.")
      info

abbrev pub leader_unavailable : Notice
leader_unavailable =
    notice (codes "Leader Unavailable") (codes "No healthy leader currently detected.") warn

-- `if (currentLeader)` takes 0 for no leader, as it does undefined.
abbrev leader_notice : Option ℕ → Notice
leader_notice none = leader_unavailable
leader_notice (some id) = if id == 0 then leader_unavailable else leader_updated id

unfoldable pub leader_notices : Option ℕ → Option ℕ → List Notice
leader_notices previous_leader current_leader =
    if same_id previous_leader current_leader then [] else leader_notice current_leader ∷ []

abbrev count_text : ℕ → ℕ → Text
count_text healthy total = show healthy ++ codes "/" ++ show total

abbrev pub quorum_restored : ℕ → ℕ → Notice
quorum_restored healthy total =
    notice (codes "Quorum Restored")
      (codes "Cluster has " ++ count_text healthy total ++ codes " healthy replicas.") success

abbrev pub quorum_lost : ℕ → ℕ → Notice
quorum_lost healthy total =
    notice (codes "Quorum Lost")
      (codes "Only "
        ++ count_text healthy total
        ++ codes " replicas are healthy. Writes may stall.")
      error

module _ {N : Type 0} where
  unfoldable pub quorum_notices : List (NodeMeta N) → List (NodeMeta N) → List Notice
  quorum_notices prev_nodes nodes =
      let quorum = quorum (length nodes) in
      let current_quorum = leb quorum (healthy_count nodes) in
      if same_bool (leb quorum (healthy_count prev_nodes)) current_quorum
      then []
      else if current_quorum
      then quorum_restored (healthy_count nodes) (length nodes) ∷ []
      else quorum_lost (healthy_count nodes) (length nodes) ∷ []

  -- All that the effect on `nodes` announces, once there are nodes to compare with.
  unfoldable pub nodes_notices : List (NodeMeta N) → List (NodeMeta N) → List Notice
  nodes_notices prev_nodes nodes =
      node_notices prev_nodes nodes
      ++ leader_notices (leader_id prev_nodes) (leader_id nodes)
      ++ quorum_notices prev_nodes nodes
