-- ===== src/RaftView/Examples.antt =====
-- Two kills that overlap, one refused.
use vault_vk.Common.{ℕ, ◌≡◌, refl, true, false, List, [], ◌∷◌, some, none, length}
use vault_vk.Text.{codes, starts_with, contains, to_lower}
use vault_vk.Text.Decimal.{show}
use vault_vk.Store.Defs.{ClusterState, NodeMeta, initial}
use vault_vk.Store.Actions.{kill, Reply, responded, outcome, should_use_client_simulation}
use vault_vk.Store.EventLoop.{Loop, Pending}
use vault_vk.Store.EventLoop as EventLoop
use vault_vk.RaftView.Defs.{Event, clicked, answered, line, step, run, mounted, enabled, clicked_on}
use vault_vk.RaftView.Stream.{Tells, run-Tells}

abbrev s0 : ClusterState ℕ
s0 = initial (λ n. n)

abbrev idle_loop : Loop ℕ
idle_loop = record { store = s0; pending = [] }

abbrev refusal : Reply
refusal = responded 503 (record { ok = some false; detail = some (codes "busy"); simulated = none })

abbrev node_of : ℕ → NodeMeta ℕ
node_of id = record {
  node_id = id;
  host = [];
  port = 0;
  healthy = true;
  is_leader = false;
  ops_set = 0;
  ops_get = 0;
  lag_ms = 0;
  latency_us = 0;
  key_count = 0;
}

abbrev overlapping : List (Event ℕ)
overlapping = clicked kill (node_of 2) ∷ clicked kill (node_of 3) ∷ []

abbrev first : Pending ℕ
first = record { action = kill; previous = s0 }

first_waits : length (run (mounted idle_loop) overlapping).loop.pending ≡ 2
unfolding mounted step clicked_on enabled EventLoop.step
first_waits = refl

refused_line : line kill 2 (outcome kill refusal) ≡ codes "Kill failed for node 2: busy"
unfolding line outcome should_use_client_simulation contains to_lower starts_with show
refused_line = refl

run-Tells_example :
    Tells first
      (run (mounted idle_loop) overlapping)
      (step (answered 0 refusal) (run (mounted idle_loop) overlapping))
unfolding mounted step clicked_on enabled EventLoop.step
run-Tells_example = run-Tells idle_loop overlapping 0 refusal first refl
