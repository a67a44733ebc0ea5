-- ===== src/Dashboards/Examples.antt =====
-- Three nodes, one of them down, on the dashboards. Numbers are thousandths.
use vault_vk.Common.{ℕ, ◌≡◌, refl, Bool, true, false, List, [], ◌∷◌, none, map}
use vault_vk.Text.{Text, codes}
use vault_vk.Text.Decimal.{show}
use vault_vk.Numbers.Scaled.{ℤ, pos, scaled}
use vault_vk.Store.Defs.{NodeMeta, ClusterState, opened}
use vault_vk.Store.Actions.{kill, restart}
use vault_vk.Metrics.Snapshot.{sum_latency}
use vault_vk.Dashboards.{Printer}
use vault_vk.Dashboards.Overview.{Card, cards}
use vault_vk.Dashboards.Mission.{Shown, Stat, stats}
use vault_vk.Dashboards.Card.{Event, clicked, over, given, run, mounted, step, label}

abbrev node_of : ℕ → Bool → ℕ → NodeMeta ℤ
node_of id healthy key_count = record {
  node_id = id;
  host = codes "h";
  port = 1;
  healthy = healthy;
  is_leader = false;
  ops_set = 0;
  ops_get = 0;
  lag_ms = pos 0;
  latency_us = pos 0;
  key_count = key_count;
}

abbrev three_nodes : List (NodeMeta ℤ)
three_nodes = node_of 1 true 5 ∷ node_of 2 true 7 ∷ node_of 3 false 11 ∷ []

abbrev state : ClusterState ℤ
state = record { nodes = three_nodes; history = []; forced_down_node_ids = []; ws_status = opened }

-- Prints nothing but the thousandths.
abbrev in_thousandths : ℤ → Text
in_thousandths (pos n) = show n
in_thousandths n = codes "-"

abbrev printer : Printer ℤ
printer = record {
  locale = in_thousandths;
  fixed = λ k. in_thousandths;
  plain = in_thousandths;
  time = in_thousandths;
}

stored :
    map (λ (c : Card). c.value) (cards scaled printer state)
    ≡ codes "0" ∷ codes "0" ∷ codes "23000" ∷ codes "2/3" ∷ []
unfolding cards show sum_latency
stored = refl

abbrev shown : Shown ℤ
shown = record { nodes = three_nodes; history = []; ws_status = opened; last_updated = none }

healthy_only :
    map (λ (c : Stat). c.value) (stats scaled printer shown)
    ≡ codes "12000" ∷ codes "0 us" ∷ codes "0" ∷ codes "0" ∷ []
unfolding stats show sum_latency
healthy_only = refl

-- A second click does nothing; the node goes down while the call waits, and a restart begins.
abbrev clicks : List (Event ℤ)
clicks = clicked kill ∷ clicked kill ∷ given (node_of 1 false 5) ∷ clicked restart ∷ over kill ∷ []

killed_and_restarting :
    label restart (run (mounted (node_of 1 true 5)) clicks) ≡ codes "Restarting..."
unfolding label mounted step
killed_and_restarting = refl
