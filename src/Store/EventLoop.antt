-- ===== src/Store/EventLoop.antt =====
-- The store under the browser's event loop. An action is two steps, before and after its wait for
-- the gateway, and any other steps may come between: snapshots, samples, further actions.
pub mod Forced
pub mod Invariant
pub mod LostUpdate
pub mod Sticks
use vault_vk.Common.{ℕ, zero, suc, List, [], ◌∷◌, ◌++◌, Option, none, some, get_elem?, remove_at}
use vault_vk.Store.Defs.{
  NodeMeta, MetricsPoint, WsStatus, ClusterState, set_nodes, push_metrics, set_status,
}
use vault_vk.Store.Actions.{Action, Reply, begin, settle}

-- A call of `killNode` or `restartNode` that waits: what it reads as `previous`.
pub record Pending (N : Type 0) : Type 0 where
  pub action : Action
  pub previous : ClusterState N

pub record Loop (N : Type 0) : Type 0 where
  pub store : ClusterState N
  pub pending : List (Pending N)

pub data Event (N : Type 0) : Type 0 where
  snapshot : List (NodeMeta N) → Event N
  sample : MetricsPoint N → Event N
  status : WsStatus → Event N
  start : Action → (id : ℕ) → Event N
  -- The gateway's answer to the waiting action at this place.
  answer : (place : ℕ) → Reply → Event N

module _ {N : Type 0} where
  unfoldable pub step : Loop N → Event N → Loop N
  step l (snapshot nodes) = record l { store = set_nodes nodes l.store }
  step l (sample pt) = record l { store = push_metrics pt l.store }
  step l (status s) = record l { store = set_status s l.store }
  step l (start action id) = record {
    store = begin action id l.store;
    pending = l.pending ++ record { action = action; previous = l.store } ∷ [];
  }
  step l (answer place reply) = elim (get_elem? l.pending place) [
    | none ↦ l
    | some p ↦ record {
      store = (settle p.action p.previous reply l.store).0;
      pending = remove_at place l.pending;
    }
  ]

  unfoldable pub run : Loop N → List (Event N) → Loop N
  run l [] = l
  run l (e ∷ es) = run (step l e) es
