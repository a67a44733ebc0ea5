-- ===== src/Metrics/Ingest.antt =====
-- `ingest` of hooks/useClusterWS.ts, with the two stores that it writes: store/clusterStore.ts and
-- store/metricsStore.ts. `now` stands for `Date.now() / 1000`, `now_ms` for `Date.now()`.
use vault_vk.Common.{ℕ, List, [], ◌∷◌, ◌++◌, map, Option, none, some, slice_last, get_or_else}
use vault_vk.Numbers.Defs.{Arith}
use vault_vk.Store.Defs.{NodeMeta, MetricsPoint, WsStatus, connecting}
use vault_vk.Metrics.Snapshot.{Snapshot, Totals, direct_metrics, totals, base_ms, estimate, elapsed}

-- `NodeMeta` of clusterStore.ts: that of store.ts and two optional fields.
pub record ClusterNode (N : Type 0) : Type 0 where
  pub meta : NodeMeta N
  pub open meta use *
  pub last_seen : Option N
  pub wal_seq : Option ℕ

-- clusterStore.ts
pub record ClusterView (N : Type 0) : Type 0 where
  pub nodes : List (ClusterNode N)
  pub ws_status : WsStatus
  pub last_updated : Option N

-- metricsStore.ts
pub record MetricsState (N : Type 0) : Type 0 where
  pub history : List (MetricsPoint N)

-- The stores and `prevTotals.current`.
pub record Pages (N : Type 0) : Type 0 where
  pub cluster : ClusterView N
  pub metrics : MetricsState N
  pub prev_totals : Option (Totals N)

module _ {N : Type 0} where
  unfoldable pub empty_cluster : ClusterView N
  empty_cluster = record { nodes = []; ws_status = connecting; last_updated = none }

  unfoldable pub set_cluster_nodes : N → List (ClusterNode N) → ClusterView N → ClusterView N
  set_cluster_nodes now_ms nodes s = record s { nodes = nodes; last_updated = some now_ms }

  unfoldable pub set_cluster_status : WsStatus → ClusterView N → ClusterView N
  set_cluster_status ws_status s = record s { ws_status = ws_status }

  unfoldable pub push : MetricsPoint N → MetricsState N → MetricsState N
  push pt s = record { history = slice_last 119 s.history ++ pt ∷ [] }

module _ (F : Arith) where
  open F use {Num, nat, sub, div, max_of, round}

  -- The sample made from two snapshots' totals.
  unfoldable pub derived : Totals Num → Totals Num → List (NodeMeta Num) → MetricsPoint Num
  derived prev totals nodes =
      let dt = elapsed F prev totals.ts in
      let set_delta = max_of (nat 0) (sub (nat totals.set) (nat prev.set)) in
      let get_delta = max_of (nat 0) (sub (nat totals.get) (nat prev.get)) in
      estimate F totals.ts (round (div set_delta dt)) (round (div get_delta dt)) (base_ms F nodes)

  unfoldable pub ingest : Num → Num → Snapshot (ClusterNode Num) Num → Pages Num → Pages Num
  ingest now now_ms d p =
      let ts = get_or_else d.ts now in
      let cluster : ClusterView Num = elim d.nodes [
        | none ↦ p.cluster
        | some nodes ↦ set_cluster_nodes now_ms nodes p.cluster
      ] in
      elim (direct_metrics ts d) [
        | some pt ↦ record p { cluster = cluster; metrics = push pt p.metrics }
        | none ↦ elim d.nodes [
          | none ↦ record p { cluster = cluster }
          | some nodes ↦
              let metas = map (λ (n : ClusterNode Num). n.meta) nodes in
              let totals = totals ts metas in
              elim p.prev_totals [
                | none ↦ record p { cluster = cluster; prev_totals = some totals }
                | some prev ↦ record {
                  cluster = cluster;
                  metrics = push (derived prev totals metas) p.metrics;
                  prev_totals = some totals;
                }
              ]
        ]
      ]
