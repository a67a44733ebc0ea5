-- ===== src/Dashboards/Charts.antt =====
-- The data that the charts of components/OpsChart.tsx and components/LagChart.tsx are drawn from.
use vault_vk.Common.{◌==◌, Bool, List, ◌++◌, map, length}
use vault_vk.Text.{Text, codes}
use vault_vk.Text.Decimal.{show}
use vault_vk.Numbers.Defs.{Arith}
use vault_vk.Store.Defs.{NodeMeta, MetricsPoint}
use vault_vk.Dashboards.{Printer}
use vault_vk.Dashboards.Overview.{Point}

-- A bar of the lag chart.
pub record Bar (N : Type 0) : Type 0 where
  pub name : Text
  pub lag : N
  pub healthy : Bool

module _ (F : Arith) (p : Printer F.Num) where
  open F use {Num, nat, mul}

  unfoldable pub ops_point : MetricsPoint Num → Point Num
  ops_point pt = record {
    time = p.time (mul pt.ts (nat 1000));
    set = pt.set_ops_per_sec;
    get = pt.get_ops_per_sec;
  }

  unfoldable pub ops_data : List (MetricsPoint Num) → List (Point Num)
  unfolding ops_point
  ops_data history = map ops_point history

module _ {N : Type 0} (tenths : N → N) where
  -- `tenths` is `Number(x.toFixed(1))`.
  unfoldable pub lag_data : List (NodeMeta N) → List (Bar N)
  lag_data nodes =
      map
        (λ n. record {
          name = codes "N" ++ show n.node_id;
          lag = tenths n.lag_ms;
          healthy = n.healthy;
        })
        nodes

module _ {N : Type 0} where
  -- Whether a chart says that it has no data yet.
  unfoldable pub no_data : List N → Bool
  no_data points = length points == 0
