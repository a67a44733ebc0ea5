-- ===== src/Store/EventLoop/LostUpdate.antt =====
-- What a refused action undoes beside its own change.
use vault_vk.Common.{ℕ, ◌≡◌, true, false, List, [], ◌∷◌, arith}
use vault_vk.Store.Defs.{NodeMeta, ClusterState, set_nodes}
use vault_vk.Store.Actions.{
  kill, restart, begin_kill, begin_restart, Action, Reply, outcome, begin, settle,
}
use vault_vk.Store.EventLoop.{snapshot, start, answer, step, run}

module _ {N : Type 0} where
  -- A loop with no waiting action: an action starts, a snapshot of the nodes arrives, a second action
  -- starts and succeeds, and then the first is refused. All of it is undone: the loop is back in the
  -- state before the first action, so the snapshot and the successful action are lost.
  pub refused_action_discards :
      (s : ClusterState N) (a b : Action) (id id' : ℕ) (nodes : List (NodeMeta N)) (r r' : Reply)
      → (outcome a r).ok ≡ false
      → (outcome b r').ok ≡ true
      → run
          (record { store = s; pending = [] })
          (start a id ∷ snapshot nodes ∷ start b id' ∷ answer 1 r' ∷ answer 0 r ∷ [])
        ≡ record { store = s; pending = [] }
  unfolding run step settle begin begin_kill begin_restart set_nodes
  refused_action_discards s kill kill id id' nodes r r' h k = ground arith
  refused_action_discards s kill restart id id' nodes r r' h k = ground arith
  refused_action_discards s restart kill id id' nodes r r' h k = ground arith
  refused_action_discards s restart restart id id' nodes r r' h k = ground arith
