-- ===== src/Store/Defs.antt =====
-- The state of store.ts, its initial value, and the actions that do not wait.
use vault_vk.Common.{
  ℕ, ◌==◌, Bool, true, false, List, [], ◌∷◌, ◌++◌, map, length, includes, slice_last, if◌then◌else◌,
}
use vault_vk.Text.{Text, codes}

pub record NodeMeta (N : Type 0) : Type 0 where
  pub node_id : ℕ
  pub host : Text
  pub port : ℕ
  pub healthy : Bool
  pub is_leader : Bool
  pub ops_set : ℕ
  pub ops_get : ℕ
  pub lag_ms : N
  pub latency_us : N
  pub key_count : ℕ

pub record MetricsPoint (N : Type 0) : Type 0 where
  pub ts : N
  pub set_ops_per_sec : N
  pub get_ops_per_sec : N
  pub set_p50_ms : N
  pub set_p99_ms : N
  pub get_p50_ms : N
  pub get_p99_ms : N

pub data WsStatus : Type 0 where
  connecting opened closed : WsStatus

-- The fields of `ClusterState` that hold data.
pub record ClusterState (N : Type 0) : Type 0 where
  pub nodes : List (NodeMeta N)
  pub history : List (MetricsPoint N)
  pub forced_down_node_ids : List ℕ
  pub ws_status : WsStatus

module _ {N : Type 0} where
  -- `{ ...node, healthy: false, is_leader: false }`
  abbrev pub down : NodeMeta N → NodeMeta N
  down node = record node { healthy = false; is_leader = false }

  unfoldable pub apply_forced_down : List (NodeMeta N) → List ℕ → List (NodeMeta N)
  apply_forced_down nodes forced =
      if length forced == 0
      then nodes
      else map (λ node. if includes forced node.node_id then down node else node) nodes

  unfoldable pub set_nodes : List (NodeMeta N) → ClusterState N → ClusterState N
  set_nodes nodes state = record state {
    nodes = apply_forced_down nodes state.forced_down_node_ids;
  }

  unfoldable pub push_metrics : MetricsPoint N → ClusterState N → ClusterState N
  push_metrics pt state = record state { history = slice_last 119 state.history ++ pt ∷ [] }

  unfoldable pub set_status : WsStatus → ClusterState N → ClusterState N
  set_status ws_status state = record state { ws_status = ws_status }

-- The state at the start; `num` reads the natural numbers among the literals.
module _ {N : Type 0} (num : ℕ → N) where
  initial_node : ℕ → Text → ℕ → Bool → ℕ → NodeMeta N
  initial_node node_id host port is_leader latency_us = record {
    node_id = node_id;
    host = host;
    port = port;
    healthy = true;
    is_leader = is_leader;
    ops_set = 0;
    ops_get = 0;
    lag_ms = num 0;
    latency_us = num latency_us;
    key_count = 0;
  }

  unfoldable pub initial : ClusterState N
  unfolding initial_node
  initial = record {
    nodes =
        initial_node 1 (codes "vaultkv-node1") 7379 true 120
        ∷ initial_node 2 (codes "vaultkv-node2") 7380 false 145
        ∷ initial_node 3 (codes "vaultkv-node3") 7381 false 160
        ∷ [];
    history = [];
    forced_down_node_ids = [];
    ws_status = connecting;
  }
