-- ===== src/Store/Rollback.antt =====
-- `killNode` and `restartNode` from start to end, with nothing between.
use vault_vk.Common.{
  ℕ, ◌==◌, ◌⊎◌, ◌≡◌, refl, true, false, List, [], ◌∷◌, ◌++◌, map, none, some, arith, includes,
  without, without-concat, if◌then◌else◌,
}
use vault_vk.Store.Defs.{NodeMeta, ClusterState, down}
use vault_vk.Store.Actions.{
  Action, Body, Reply, responded, threw, truthy, should_use_client_simulation, outcome, begin_kill,
  begin_restart, kill_node, restart_node,
}

-- A success that the result does not call simulated, and what else a result says of the reply.
abbrev pub Reported : Reply → Type 0
Reported reply =
    (status : ℕ) × (body : Body) × (reply ≡ responded status body) × (truthy body.ok ≡ true)

-- For each action and reply the result is one of three: refused, with no simulation claimed and a
-- detail that asks for none; simulated; or a plain success that the gateway's body reported.
pub outcome_cases :
    (action : Action) (reply : Reply)
    → let r = outcome action reply in
      ((r.ok ≡ false)
        × (r.simulated ≡ none)
        × (should_use_client_simulation r.detail ≡ false)
        × ¬ Reported reply)
      ⊎ ((r.ok ≡ true) × (r.simulated ≡ some true))
      ⊎ ((r.ok ≡ true) × (r.simulated ≡ none) × Reported reply)
unfolding outcome
outcome_cases action (responded status body) = ground arith
outcome_cases action (threw message) = ground arith

restart-kill-ids :
    (id : ℕ) (forced : List ℕ)
    → without id (if includes forced id then forced else forced ++ id ∷ []) ≡ without id forced
restart-kill-ids id forced = ground (arith, without-concat id forced)

module _ {N : Type 0} where
  -- For each id, reply and state: the action ends in its optimistic change if its result is ok, and
  -- otherwise in the very state that it began in.
  pub kill_node_all_or_nothing :
      (id : ℕ) (reply : Reply) (s : ClusterState N)
      → ((kill_node id reply s).0 ≡ (if (kill_node id reply s).1.ok then begin_kill id s else s))
        × ((restart_node id reply s).0
            ≡ (if (restart_node id reply s).1.ok then begin_restart id s else s))
  unfolding kill_node restart_node
  kill_node_all_or_nothing id reply s = (ground arith, ground arith)

  restart-kill-nodes :
      (id : ℕ) (nodes : List (NodeMeta N))
      → map
          (λ n. if n.node_id == id then record n { healthy = true } else n)
          (map (λ n. if n.node_id == id then down n else n) nodes)
        ≡ map
            (λ n. if n.node_id == id then record n { healthy = true; is_leader = false } else n)
            nodes
  restart-kill-nodes id [] = refl
  restart-kill-nodes id (n ∷ nodes) = ground (arith, restart-kill-nodes id nodes)

  -- A successful kill and a successful restart of the same node leave it healthy but not the leader,
  -- take it off the forced list, and leave the other nodes and all else as they were.
  pub restart_node-kill_node :
      (id : ℕ) (r r' : Reply) (s : ClusterState N)
      → (kill_node id r s).1.ok ≡ true
      → (restart_node id r' (kill_node id r s).0).1.ok ≡ true
      → (restart_node id r' (kill_node id r s).0).0 ≡ record s {
        nodes =
            map
              (λ n. if n.node_id == id then record n { healthy = true; is_leader = false } else n)
              s.nodes;
        forced_down_node_ids = without id s.forced_down_node_ids;
      }
  unfolding kill_node restart_node
  restart_node-kill_node id r r' s h k =
      ground (arith, restart-kill-nodes id s.nodes, restart-kill-ids id s.forced_down_node_ids)
