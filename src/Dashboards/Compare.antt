-- ===== src/Dashboards/Compare.antt =====
-- The figures of the two dashboards side by side, and what a kill does to each.
use vault_vk.Common.{
  ℕ, ◌+◌, ◌==◌, ◌≡◌, refl, ap, ◌∙◌, not, ◌&&◌, List, [], ◌∷◌, map, arith, filter, length,
  length-map, max, if◌then◌else◌,
}
use vault_vk.Numbers.Defs.{Arith}
use vault_vk.Store.Defs.{NodeMeta, ClusterState, down}
use vault_vk.Store.Actions.{begin_kill}
use vault_vk.Metrics.Snapshot.{healthy_nodes, sum_latency}
use vault_vk.Dashboards.Overview.{sum_keys, mean_latency}
use vault_vk.Dashboards.Mission.{total_keys}

module _ {N : Type 0} where
  -- The sum without its accumulator.
  abbrev keys : List (NodeMeta N) → ℕ
  keys [] = 0
  keys (n ∷ nodes) = n.key_count + keys nodes

  sum_keys_lem : (a : ℕ) (nodes : List (NodeMeta N)) → sum_keys a nodes ≡ a + keys nodes
  unfolding sum_keys
  sum_keys_lem a [] = omega arith
  sum_keys_lem a (n ∷ nodes) = omega (arith, sum_keys_lem (a + n.key_count) nodes)

  abbrev pub unhealthy_nodes : List (NodeMeta N) → List (NodeMeta N)
  unhealthy_nodes nodes = filter (λ n. not n.healthy) nodes

  keys_split :
      (nodes : List (NodeMeta N))
      → keys nodes ≡ keys (healthy_nodes nodes) + keys (unhealthy_nodes nodes)
  keys_split [] = refl
  keys_split (n ∷ nodes) = ground (arith, keys_split nodes)

  -- What `killNode` makes of the nodes at once.
  abbrev killed : ℕ → List (NodeMeta N) → List (NodeMeta N)
  killed id nodes = map (λ n. if n.node_id == id then down n else n) nodes

  -- The nodes that a kill takes out of the healthy ones.
  abbrev pub victims : ℕ → List (NodeMeta N) → List (NodeMeta N)
  victims id nodes = filter (λ n. n.healthy && n.node_id == id) nodes

  keys-killed : (id : ℕ) (nodes : List (NodeMeta N)) → keys (killed id nodes) ≡ keys nodes
  keys-killed id [] = refl
  keys-killed id (n ∷ nodes) = ground (arith, keys-killed id nodes)

  keys-healthy_nodes :
      (id : ℕ) (nodes : List (NodeMeta N))
      → keys (healthy_nodes (killed id nodes)) + keys (victims id nodes)
        ≡ keys (healthy_nodes nodes)
  keys-healthy_nodes id [] = refl
  keys-healthy_nodes id (n ∷ nodes) = ground (arith, keys-healthy_nodes id nodes)

  -- The storage of the overview is that of the other dashboard and the keys of the nodes that are not
  -- healthy: the two agree exactly where those nodes hold no key.
  pub storage_split :
      (nodes : List (NodeMeta N))
      → sum_keys 0 nodes ≡ total_keys nodes + sum_keys 0 (unhealthy_nodes nodes)
  unfolding total_keys
  storage_split nodes = omega (
    arith,
    sum_keys_lem 0 nodes,
    sum_keys_lem 0 (healthy_nodes nodes),
    sum_keys_lem 0 (unhealthy_nodes nodes),
    keys_split nodes,
  )

module _ (F : Arith) where
  open F use {Num, nat, add, div, round}

  sum_latency-killed :
      (id : ℕ) (a : Num) (nodes : List (NodeMeta Num))
      → sum_latency F a (killed id nodes) ≡ sum_latency F a nodes
  unfolding sum_latency
  sum_latency-killed id a [] = refl
  sum_latency-killed id a (n ∷ nodes) =
      ground (arith, sum_latency-killed id (add a n.latency_us) nodes)

  mean_latency-killed :
      (id : ℕ) (nodes : List (NodeMeta Num))
      → mean_latency F (killed id nodes) ≡ mean_latency F nodes
  unfolding mean_latency
  mean_latency-killed id nodes =
      ap (λ x. round (div x (nat (max 1 (length (killed id nodes))))))
        (sum_latency-killed id (nat 0) nodes)
      ∙ ap (λ k. round (div (sum_latency F (nat 0) nodes) (nat (max 1 k))))
          (length-map (λ n. if n.node_id == id then down n else n) nodes)

  -- A kill takes effect on the one dashboard and not on the other: the storage and the mean latency of
  -- the overview stay as they were, while the total of the healthy nodes loses the keys of the nodes
  -- that were healthy and have been killed.
  pub begin_kill-storage :
      (id : ℕ) (s : ClusterState Num)
      → (sum_keys 0 (begin_kill id s).nodes ≡ sum_keys 0 s.nodes)
        × (mean_latency F (begin_kill id s).nodes ≡ mean_latency F s.nodes)
        × (total_keys (begin_kill id s).nodes + sum_keys 0 (victims id s.nodes)
            ≡ total_keys s.nodes)
  unfolding begin_kill total_keys
  begin_kill-storage id s = (
    omega
        (arith, sum_keys_lem 0 (killed id s.nodes), sum_keys_lem 0 s.nodes, keys-killed id s.nodes),
    mean_latency-killed id s.nodes,
    omega (
      arith,
      sum_keys_lem 0 (healthy_nodes (killed id s.nodes)),
      sum_keys_lem 0 (victims id s.nodes),
      sum_keys_lem 0 (healthy_nodes s.nodes),
      keys-healthy_nodes id s.nodes,
    ),
  )
