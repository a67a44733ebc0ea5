-- ===== src/Store/Actions.antt =====
-- `killNode` and `restartNode` of store.ts. Each makes an optimistic change, waits for the gateway,
-- and keeps the change or puts the nodes and the forced list of its start back.
use vault_vk.Common.{
  ℕ, ◌==◌, Bool, true, false, not, ◌&&◌, ◌||◌, [], ◌∷◌, ◌++◌, map, Option, none, some, includes,
  without, if◌then◌else◌, get_or_else,
}
use vault_vk.Text.{Text, codes, contains, to_lower}
use vault_vk.Text.Decimal.{show}
use vault_vk.Store.Defs.{ClusterState, down}

pub data Action : Type 0 where
  kill restart : Action

pub record NodeActionResult : Type 0 where
  pub ok : Bool
  pub detail : Text
  pub simulated : Option Bool

-- The fields of the reply's body, none where undefined.
pub record Body : Type 0 where
  pub ok : Option Bool
  pub detail : Option Text
  pub simulated : Option Bool

-- What the call of the gateway comes to: a reply, whose body is `{}` where it does not parse, or an
-- exception, with its message if it is an `Error`.
pub data Reply : Type 0 where
  responded : (status : ℕ) → Body → Reply
  threw : Option Text → Reply

unfoldable pub should_use_client_simulation : Text → Bool
should_use_client_simulation detail =
    let normalized = to_lower detail in
    contains (codes "container not found") normalized
    || contains (codes "docker") normalized
    || contains (codes "permission denied") normalized
    || contains (codes "network error") normalized
    || contains (codes "connection refused") normalized

-- `Boolean(x)` of an optional truth value.
abbrev pub truthy : Option Bool → Bool
truthy none = false
truthy (some b) = b

-- `b || undefined`
abbrev or_undefined : Bool → Option Bool
or_undefined true = some true
or_undefined false = none

abbrev applied : Action → Text
applied kill = codes "node kill applied"
applied restart = codes "node restart applied"

abbrev failed : Action → Text
failed kill = codes "kill failed (HTTP "
failed restart = codes "restart failed (HTTP "

abbrev network_error : Action → Text
network_error kill = codes "network error during kill"
network_error restart = codes "network error during restart"

abbrev simulation_note : Action → Text
simulation_note kill = codes "; using client simulated node-down mode"
simulation_note restart = codes "; using client simulated node-recover mode"

-- The result of an action for each reply.
unfoldable pub outcome : Action → Reply → NodeActionResult
outcome action (responded status body) =
    let backend_ok = truthy body.ok in
    let backend_simulated = truthy body.simulated in
    let detail =
      get_or_else body.detail
        (if backend_ok then applied action else failed action ++ show status ++ codes ")") in
    let client_simulated =
      not backend_ok && not backend_simulated && should_use_client_simulation detail in
    record {
      ok = backend_ok || backend_simulated || client_simulated;
      detail = if client_simulated then detail ++ simulation_note action else detail;
      simulated = or_undefined (backend_simulated || client_simulated);
    }
outcome action (threw message) =
    let detail = get_or_else message (network_error action) in
    let client_simulated = should_use_client_simulation detail in
    record {
      ok = client_simulated;
      detail = if client_simulated then detail ++ simulation_note action else detail;
      simulated = or_undefined client_simulated;
    }

module _ {N : Type 0} where
  -- The optimistic change, before the gateway is called.
  unfoldable pub begin_kill : ℕ → ClusterState N → ClusterState N
  begin_kill id state = record state {
    forced_down_node_ids =
        if includes state.forced_down_node_ids id
        then state.forced_down_node_ids
        else state.forced_down_node_ids ++ id ∷ [];
    nodes = map (λ n. if n.node_id == id then down n else n) state.nodes;
  }

  unfoldable pub begin_restart : ℕ → ClusterState N → ClusterState N
  begin_restart id state = record state {
    forced_down_node_ids = without id state.forced_down_node_ids;
    nodes = map (λ n. if n.node_id == id then record n { healthy = true } else n) state.nodes;
  }

  unfoldable pub begin : Action → ℕ → ClusterState N → ClusterState N
  begin kill id state = begin_kill id state
  begin restart id state = begin_restart id state

  -- What follows the reply, with the state `previous` that was read at the start.
  unfoldable pub settle :
      Action → ClusterState N → Reply → ClusterState N → ClusterState N × NodeActionResult
  settle action previous reply state =
      let result = outcome action reply in
      (
        if result.ok then state else record state {
          nodes = previous.nodes;
          forced_down_node_ids = previous.forced_down_node_ids;
        },
        result,
      )

  -- The whole action, where nothing else runs while it waits.
  unfoldable pub kill_node : ℕ → Reply → ClusterState N → ClusterState N × NodeActionResult
  unfolding begin_kill settle
  kill_node id reply state = settle kill state reply (begin_kill id state)

  unfoldable pub restart_node : ℕ → Reply → ClusterState N → ClusterState N × NodeActionResult
  unfolding begin_restart settle
  restart_node id reply state = settle restart state reply (begin_restart id state)
