-- ===== src/Notifications/Examples.antt =====
-- What a cluster of three, and then of five, announces.
use vault_vk.Common.{ℕ, Bool, true, false, List, [], ◌∷◌}
use vault_vk.Text.{codes}
use vault_vk.Store.Defs.{NodeMeta, opened, closed}
use vault_vk.Notifications.Centre.{Stamp}
use vault_vk.Notifications.History.{
  Event, status_changed, nodes_changed, toggled, opening, run, run-opening-Shows, Shows, log_from,
  log_all, online,
}

abbrev a_node : ℕ → Bool → NodeMeta ℕ
a_node id healthy = record {
  node_id = id;
  host = codes "h";
  port = 7379;
  healthy = healthy;
  is_leader = false;
  ops_set = 0;
  ops_get = 0;
  lag_ms = 0;
  latency_us = 0;
  key_count = 0;
}

abbrev three : List (NodeMeta ℕ)
three = a_node 1 true ∷ a_node 2 true ∷ a_node 3 false ∷ []

abbrev one_of_three : List (NodeMeta ℕ)
one_of_three = a_node 1 true ∷ a_node 2 false ∷ a_node 3 false ∷ []

abbrev five : List (NodeMeta ℕ)
five = a_node 1 true ∷ a_node 2 true ∷ a_node 3 true ∷ a_node 4 false ∷ a_node 5 false ∷ []

abbrev led_by_zero : List (NodeMeta ℕ)
led_by_zero = record (a_node 0 true) { is_leader = true } ∷ []

abbrev stamp : ℕ → Stamp ℕ
stamp k = record { id = codes "n"; ts = k }

abbrev events : List (Event ℕ)
events = status_changed closed ∷ toggled ∷ nodes_changed one_of_three ∷ []

run-opening-Shows_example :
    Shows stamp
      (run stamp (opening stamp opened three) events).notifications
      (log_from stamp (opening stamp opened three) (log_all stamp 0 (online ∷ []) []) events)
run-opening-Shows_example = run-opening-Shows stamp opened three events
