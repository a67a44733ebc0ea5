-- ===== src/Dashboards/Overview.antt =====
-- `DashboardView` of App.tsx: its cards and the points of its chart.
use vault_vk.Common.{ℕ, ◌+◌, max, List, [], ◌∷◌, ◌++◌, map, none, some, length}
use vault_vk.Text.{Text, codes}
use vault_vk.Text.Decimal.{show}
use vault_vk.Numbers.Defs.{Arith}
use vault_vk.Store.Defs.{NodeMeta, MetricsPoint, ClusterState}
use vault_vk.Metrics.Snapshot.{sum_latency}
use vault_vk.Quorum.{healthy_count}
use vault_vk.Dashboards.{Printer, latest}

pub record Card : Type 0 where
  pub label : Text
  pub value : Text
  pub sub_text : Text

-- A point of the throughput chart.
pub record Point (N : Type 0) : Type 0 where
  pub time : Text
  pub set : N
  pub get : N

module _ {N : Type 0} where
  -- `nodes.reduce((a, n) => a + n.key_count, 0)`
  unfoldable pub sum_keys : ℕ → List (NodeMeta N) → ℕ
  sum_keys a [] = a
  sum_keys a (n ∷ nodes) = sum_keys (a + n.key_count) nodes

module _ (F : Arith) where
  open F use {Num, nat, add, div, round}

  -- `(latest?.set_ops_per_sec ?? 0) + (latest?.get_ops_per_sec ?? 0)`
  unfoldable pub throughput : List (MetricsPoint Num) → Num
  throughput history = elim (latest history) [
    | none ↦ add (nat 0) (nat 0)
    | some pt ↦ add pt.set_ops_per_sec pt.get_ops_per_sec
  ]

  unfoldable pub mean_latency : List (NodeMeta Num) → Num
  mean_latency nodes = round (div (sum_latency F (nat 0) nodes) (nat (max 1 (length nodes))))

module _ (F : Arith) (p : Printer F.Num) where
  open F use {Num, nat, mul}

  unfoldable pub point : MetricsPoint Num → Point Num
  point pt = record {
    time = p.time (mul pt.ts (nat 1000));
    set = pt.set_ops_per_sec;
    get = pt.get_ops_per_sec;
  }

  unfoldable pub cards : ClusterState Num → List Card
  unfolding throughput mean_latency sum_keys
  cards s =
      record {
        label = codes "Throughput";
        value = p.locale (throughput F s.history);
        sub_text = codes "Ops per second";
      }
      ∷ record {
        label = codes "Latency";
        value = p.plain (mean_latency F s.nodes);
        sub_text = codes "Microseconds mean";
      }
      ∷ record {
        label = codes "Storage";
        value = p.locale (nat (sum_keys 0 s.nodes));
        sub_text = codes "Total active keys";
      }
      ∷ record {
        label = codes "Nodes";
        value = show (healthy_count s.nodes) ++ codes "/" ++ show (max (length s.nodes) 3);
        sub_text = codes "Cluster operational";
      }
      ∷ []

  unfoldable pub chart : ClusterState Num → List (Point Num)
  unfolding point
  chart s = map point s.history
