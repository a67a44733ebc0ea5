-- ===== src/Metrics/Consume.antt =====
-- `consumeSnapshot` of hooks.ts. `now` stands for `Date.now() / 1000`.
use vault_vk.Common.{List, Option, none, some, get_or_else}
use vault_vk.Numbers.Defs.{Arith}
use vault_vk.Store.Defs.{NodeMeta, MetricsPoint, ClusterState, set_nodes, push_metrics}
use vault_vk.Metrics.Snapshot.{Snapshot, Totals, direct_metrics, totals, base_ms, estimate, elapsed}

-- The store and `previousRef.current`.
pub record Console (N : Type 0) : Type 0 where
  pub store : ClusterState N
  pub previous : Option (Totals N)

module _ (F : Arith) where
  open F use {Num, nat, sub, div, max_of, round}

  -- The sample made from two snapshots' totals.
  unfoldable pub derived : Totals Num → Totals Num → List (NodeMeta Num) → MetricsPoint Num
  derived prev totals nodes =
      let dt = elapsed F prev totals.ts in
      let set_ops = max_of (nat 0) (round (div (sub (nat totals.set) (nat prev.set)) dt)) in
      let get_ops = max_of (nat 0) (round (div (sub (nat totals.get) (nat prev.get)) dt)) in
      estimate F totals.ts set_ops get_ops (base_ms F nodes)

  unfoldable pub consume_snapshot : Num → Snapshot (NodeMeta Num) Num → Console Num → Console Num
  consume_snapshot now d c =
      let ts = get_or_else d.ts now in
      let store : ClusterState Num = elim d.nodes [
        | none ↦ c.store
        | some nodes ↦ set_nodes nodes c.store
      ] in
      elim (direct_metrics ts d) [
        | some pt ↦ record { store = push_metrics pt store; previous = c.previous }
        | none ↦ elim d.nodes [
          | none ↦ record { store = store; previous = c.previous }
          | some nodes ↦
              let totals = totals ts nodes in
              elim c.previous [
                | none ↦ record { store = store; previous = some totals }
                | some prev ↦ record {
                  store = push_metrics (derived prev totals nodes) store;
                  previous = some totals;
                }
              ]
        ]
      ]
