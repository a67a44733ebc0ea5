-- ===== src/Store/Examples.antt =====
-- Runs of the store on small inputs, and its theorems at them. Numbers are the naturals.
use vault_vk.Common.{
  ℕ, All, map, ◌++◌, ◌≡◌, refl, ◌⊎◌, true, false, List, [], ◌∷◌, none, some, if◌then◌else◌,
  includes,
}
use vault_vk.Text.{codes, contains, to_lower}
use vault_vk.Text.Decimal.{show}
use vault_vk.Store.Defs.{down, MetricsPoint, ClusterState, initial}
use vault_vk.Store.Actions.{
  Action, kill, restart, Reply, responded, threw, outcome, should_use_client_simulation, begin_kill,
  begin_restart, kill_node, restart_node,
}
use vault_vk.Store.Rollback.{kill_node_all_or_nothing, outcome_cases, Reported}
use vault_vk.Store.EventLoop.{Event, snapshot, sample, start, answer, run}
use vault_vk.Store.EventLoop.Invariant.{Inv, opening, run-opening-Inv, run-opening-history}
use vault_vk.Store.EventLoop.Forced.{held_down, held_run, run-held, held_by, IsAccepted}
use vault_vk.Store.EventLoop.Sticks.{run-snapshot}
use vault_vk.Store.EventLoop.LostUpdate.{refused_action_discards}

abbrev s0 : ClusterState ℕ
s0 = initial (λ n. n)

abbrev accepted : Reply
accepted = responded 200 (record { ok = some true; detail = none; simulated = none })

abbrev refusal : Reply
refusal = responded 500 (record { ok = none; detail = none; simulated = none })

abbrev no_docker : Reply
no_docker = threw (some (codes "Docker is not running"))

abbrev point : ℕ → MetricsPoint ℕ
point n = record {
  ts = n;
  set_ops_per_sec = 0;
  get_ops_per_sec = 0;
  set_p50_ms = 0;
  set_p99_ms = 0;
  get_p50_ms = 0;
  get_p99_ms = 0;
}

abbrev events : List (Event ℕ)
events =
    start kill 2 ∷ sample (point 1) ∷ snapshot s0.nodes ∷ answer 0 refusal ∷ sample (point 2) ∷ []

refusal_text : (outcome kill refusal).detail ≡ codes "kill failed (HTTP 500)"
unfolding outcome should_use_client_simulation contains to_lower show
refusal_text = refl

refusal_refused : (outcome kill refusal).ok ≡ false
unfolding outcome should_use_client_simulation contains to_lower show
refusal_refused = refl

accepted_ok : (outcome kill accepted).ok ≡ true
unfolding outcome
accepted_ok = refl

simulated_by_client : (outcome restart no_docker).simulated ≡ some true
unfolding outcome should_use_client_simulation contains to_lower
simulated_by_client = refl

kill_accepted : (kill_node 2 accepted s0).1.ok ≡ true
unfolding kill_node outcome
kill_accepted = refl

restart_accepted : (restart_node 2 accepted (kill_node 2 accepted s0).0).1.ok ≡ true
unfolding kill_node restart_node outcome
restart_accepted = refl

run-opening-Inv_example : Inv (run (opening (λ n. n)) events)
run-opening-Inv_example = run-opening-Inv (λ n. n) events

run-opening-history_example : (run (opening (λ n. n)) events).store.history ≡ point 1 ∷ point 2 ∷ []
run-opening-history_example = run-opening-history (λ n. n) events

kill_node_all_or_nothing_example :
    ((kill_node 2 refusal s0).0 ≡ (if (kill_node 2 refusal s0).1.ok then begin_kill 2 s0 else s0))
    × ((restart_node 2 refusal s0).0
        ≡ (if (restart_node 2 refusal s0).1.ok then begin_restart 2 s0 else s0))
kill_node_all_or_nothing_example = kill_node_all_or_nothing 2 refusal s0

outcome_cases_example :
    let r = outcome restart no_docker in
    ((r.ok ≡ false)
      × (r.simulated ≡ none)
      × (should_use_client_simulation r.detail ≡ false)
      × ¬ Reported no_docker)
    ⊎ ((r.ok ≡ true) × (r.simulated ≡ some true))
    ⊎ ((r.ok ≡ true) × (r.simulated ≡ none) × Reported no_docker)
outcome_cases_example = outcome_cases restart no_docker

refused_action_discards_example :
    run
      (record { store = s0; pending = [] })
      (start kill 1 ∷ snapshot [] ∷ start kill 2 ∷ answer 1 accepted ∷ answer 0 refusal ∷ [])
    ≡ record { store = s0; pending = [] }
refused_action_discards_example =
    refused_action_discards s0 kill kill 1 2 [] refusal accepted refusal_refused accepted_ok

run-held_example :
    held_down (run (opening (λ n. n)) events) ≡ held_run (held_down (opening (λ n. n))) events
run-held_example = run-held (opening (λ n. n)) events

-- Two actions on the same node, answered in the other order.
abbrev overlapping : List (Event ℕ)
overlapping =
    start kill 2
    ∷ start restart 2
    ∷ answer 1 accepted
    ∷ snapshot s0.nodes
    ∷ start kill 3
    ∷ answer 0 accepted
    ∷ []

accepted_of : (a : Action) → (outcome a accepted).ok ≡ true
unfolding outcome
accepted_of a = refl

overlapping-AreAccepted : All IsAccepted overlapping
overlapping-AreAccepted = (tt, (tt, (accepted_of, (tt, (tt, (accepted_of, tt))))))

run-snapshot_example :
    (run (opening (λ n. n)) (overlapping ++ snapshot s0.nodes ∷ [])).store.nodes
    ≡ map (λ n. if held_by (includes []) overlapping n.node_id then down n else n) s0.nodes
unfolding initial
run-snapshot_example = run-snapshot (opening (λ n. n)) overlapping s0.nodes overlapping-AreAccepted
