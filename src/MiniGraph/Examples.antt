-- ===== src/MiniGraph/Examples.antt =====
-- A storage that someone else wrote, and a few clicks.
use vault_vk.Common.{some}
use vault_vk.Text.{codes}
use vault_vk.MiniGraph.Defs.{Storage}
use vault_vk.Numbers.Scaled.{ℤ, pos}
use vault_vk.Store.Defs.{MetricsPoint}
use vault_vk.Dashboards.{Printer}

abbrev strange : Storage
strange = record { collapsed = some (codes "no"); corner = some (codes "middle") }

abbrev printer : Printer ℤ
printer = record {
  locale = λ n. codes "n";
  fixed = λ k n. codes "n";
  plain = λ n. codes "n";
  time = λ n. codes "t";
}

abbrev point : MetricsPoint ℤ
point = record {
  ts = pos 1000;
  set_ops_per_sec = pos 2000;
  get_ops_per_sec = pos 3000;
  set_p50_ms = pos 10;
  set_p99_ms = pos 20;
  get_p50_ms = pos 10;
  get_p99_ms = pos 20;
}
