-- ===== src/Store/Masking.antt =====
-- The mask that `setNodes` lays over the forced-down nodes, and the actions on it.
use vault_vk.Common.{
  includes-with_id, with_id-Distinct, ℕ, ◌==◌, ◌≡◌, refl, ap, true, false, ◌&&◌, ◌||◌, List, [],
  ◌∷◌, map, arith, includes, without, includes-without, Distinct, without-Distinct, if◌then◌else◌,
  All,
}
use vault_vk.Store.Defs.{NodeMeta, ClusterState, down, apply_forced_down}
use vault_vk.Store.Actions.{Action, begin_kill, begin_restart, begin, kill, restart}

module _ {N : Type 0} where
  -- No forced node is shown healthy or as the leader.
  abbrev pub IsMasked : List ℕ → NodeMeta N → Type 0
  IsMasked forced n = (includes forced n.node_id && (n.healthy || n.is_leader)) ≡ false

  abbrev pub mask : List ℕ → NodeMeta N → NodeMeta N
  mask forced n = if includes forced n.node_id then down n else n

  map-mask-nil : (nodes : List (NodeMeta N)) → map (mask []) nodes ≡ nodes
  map-mask-nil [] = refl
  map-mask-nil (n ∷ nodes) = ap (◌∷◌ n) (map-mask-nil nodes)

  -- The short cut for an empty list changes nothing.
  pub apply_forced_down_lem :
      (nodes : List (NodeMeta N)) (forced : List ℕ)
      → apply_forced_down nodes forced ≡ map (mask forced) nodes
  unfolding apply_forced_down
  apply_forced_down_lem nodes [] = ground (arith, map-mask-nil nodes)
  apply_forced_down_lem nodes (id ∷ forced) = ground arith

  map-mask-IsMasked :
      (forced : List ℕ) (nodes : List (NodeMeta N))
      → All (IsMasked forced) (map (mask forced) nodes)
  map-mask-IsMasked forced [] = tt
  map-mask-IsMasked forced (n ∷ nodes) = (ground arith, map-mask-IsMasked forced nodes)

  -- The nodes are masked and the forced list names no node twice.
  pub record IsConsistent (nodes : List (NodeMeta N)) (forced : List ℕ) : Type 0 where
    pub masked : All (IsMasked forced) nodes
    pub distinct : Distinct forced

  pub set_nodes-IsConsistent :
      (nodes : List (NodeMeta N)) (forced : List ℕ)
      → Distinct forced
      → IsConsistent (apply_forced_down nodes forced) forced
  set_nodes-IsConsistent nodes forced d =
      rw (apply_forced_down_lem nodes forced)
        (record { masked = map-mask-IsMasked forced nodes; distinct = d })

  kill-IsMasked :
      (id : ℕ) (forced forced' : List ℕ) (nodes : List (NodeMeta N))
      → ((a : ℕ) → includes forced' a ≡ (includes forced a || id == a))
      → All (IsMasked forced) nodes
      → All (IsMasked forced') (map (λ n. if n.node_id == id then down n else n) nodes)
  kill-IsMasked id forced forced' [] e h = tt
  kill-IsMasked id forced forced' (n ∷ nodes) e h =
      (ground (arith, e n.node_id, h.0), kill-IsMasked id forced forced' nodes e h.1)

  restart-IsMasked :
      (id : ℕ) (forced : List ℕ) (nodes : List (NodeMeta N))
      → All (IsMasked forced) nodes
      → All
          (IsMasked (without id forced))
          (map (λ n. if n.node_id == id then record n { healthy = true } else n) nodes)
  restart-IsMasked id forced [] h = tt
  restart-IsMasked id forced (n ∷ nodes) h = (
    ground (arith, includes-without id n.node_id forced, h.0),
    restart-IsMasked id forced nodes h.1,
  )

  -- Both optimistic changes keep the state consistent.
  pub begin-IsConsistent :
      (action : Action) (id : ℕ) (s : ClusterState N)
      → IsConsistent s.nodes s.forced_down_node_ids
      → IsConsistent (begin action id s).nodes (begin action id s).forced_down_node_ids
  unfolding begin begin_kill begin_restart
  begin-IsConsistent kill id s c = record {
    masked =
        kill-IsMasked id s.forced_down_node_ids _ s.nodes
          (includes-with_id id s.forced_down_node_ids) c.masked;
    distinct = with_id-Distinct id s.forced_down_node_ids c.distinct;
  }
  begin-IsConsistent restart id s c = record {
    masked = restart-IsMasked id s.forced_down_node_ids s.nodes c.masked;
    distinct = without-Distinct id s.forced_down_node_ids c.distinct;
  }
