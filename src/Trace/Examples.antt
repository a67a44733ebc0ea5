-- ===== src/Trace/Examples.antt =====
-- A trace of one write on a cluster with two healthy nodes of three.
use vault_vk.Common.{
  ℕ, ◌*◌, ◌≡◌, ◌≢◌, ◌↔◌, refl, true, false, List, [], ◌∷◌, ◌++◌, none, some, arith, length,
}
use vault_vk.Text.{codes}
use vault_vk.Text.Trim.{is_nil, trim}
use vault_vk.Store.Defs.{NodeMeta}
use vault_vk.Requests.Build.{set, build_request}
use vault_vk.Quorum.{quorum}
use vault_vk.Trace.Defs.{
  trace_request, ack_thrown, reply_thrown, idle, success, replied, TraceResult, create_trace_steps,
  update_step, execute_step,
}
use vault_vk.Trace.Runner.{
  Inputs, View, stages, stages_with, leader_thrown, quorum_thrown, last_thrown, run_trace,
}
use vault_vk.Trace.Stages.{last_status}
use vault_vk.Trace.Panel.{
  Panel, Run, Event, tick, focus, consensus, type_key, reset, run_clicked, advance, run_disabled,
  run, opening,
}
use vault_vk.Trace.Panel as Panels
use vault_vk.Trace.Whole.{advances, run-run_trace}
use vault_vk.Text.Decimal.{show}
use vault_vk.Dashboards.{Printer}
use vault_vk.Trace.Runner.{result_of}
use vault_vk.Trace.Report.{result_card, finished, causes, Tells, run_trace-Tells}
use vault_vk.Trace.Outcome.{CanCommit, Acknowledged, run_trace-ok}

abbrev leader : NodeMeta ℕ
leader = record {
  node_id = 1;
  host = codes "h";
  port = 7379;
  healthy = true;
  is_leader = true;
  ops_set = 0;
  ops_get = 0;
  lag_ms = 0;
  latency_us = 0;
  key_count = 0;
}

abbrev inputs : Inputs ℕ
inputs = record {
  trace_op = set;
  trace_key = codes "k";
  trace_value = codes "v";
  nodes =
      leader
      ∷ record leader { node_id = 2; is_leader = false }
      ∷ record leader { node_id = 3; healthy = false; is_leader = false }
      ∷ [];
  elapsed = λ k. 10 * k;
  total_ms = 70;
  fetched = replied (record { ok = true; status = 200; body = some (none, codes "{}") });
}

abbrev fresh : View ℕ
fresh = record { trace_steps = []; trace_running = false; trace_result = none }

key_present : is_nil (trim inputs.trace_key) ≡ false
unfolding trim
key_present = refl

succeeds : last_status (stages inputs).steps ≡ success
unfolding stages stages_with leader_thrown quorum_thrown last_thrown trace_request ack_thrown
    reply_thrown build_request create_trace_steps update_step execute_step quorum
succeeds = refl

last_succeeds : last_status (stages inputs).steps ≢ idle
last_succeeds h = ground (arith, succeeds)

run_trace-ok_example :
    (r : TraceResult ℕ) × ((run_trace inputs fresh).trace_result ≡ some r)
    × ((r.ok ≡ true) ↔ (CanCommit inputs.nodes × Acknowledged inputs))
run_trace-ok_example = run_trace-ok inputs fresh key_present refl

abbrev panel : Panel ℕ
panel = record {
  trace_op = inputs.trace_op;
  trace_key = inputs.trace_key;
  trace_value = inputs.trace_value;
  active_module = 3;
  view = fresh;
  going = none;
}

abbrev met : Run ℕ
met = record {
  nodes = inputs.nodes;
  elapsed = inputs.elapsed;
  total_ms = inputs.total_ms;
  fetched = inputs.fetched;
}

-- The operator types another key, resets and runs again while the trace runs.
abbrev meanwhile : List (Event ℕ)
meanwhile =
    advance
    ∷ advance
    ∷ type_key (codes "other")
    ∷ advance
    ∷ advance
    ∷ advance
    ∷ reset
    ∷ tick
    ∷ advance
    ∷ advance
    ∷ run_clicked met
    ∷ advance
    ∷ advance
    ∷ focus consensus
    ∷ advance
    ∷ advance
    ∷ []

panel_ready : run_disabled panel ≡ false
unfolding run_disabled trim
panel_ready = refl

all_shown : advances meanwhile ≡ length (stages (Panels.inputs met panel)).shown
unfolding stages stages_with leader_thrown quorum_thrown last_thrown trace_request ack_thrown
    reply_thrown build_request create_trace_steps update_step execute_step quorum
all_shown = refl

run-run_trace_example :
    (run panel ((run_clicked met ∷ meanwhile) ++ advance ∷ [])).view ≡ run_trace inputs fresh
run-run_trace_example = run-run_trace panel met meanwhile panel_ready all_shown

abbrev printer : Printer ℕ
printer = record { locale = show; fixed = λ digits n. show n; plain = show; time = show }

-- The leader is down, so the third stage fails and the gateway is not asked.
abbrev leaderless : Inputs ℕ
leaderless = record inputs { nodes = record leader { healthy = false } ∷ [] }

not_appended :
    result_card printer (run_trace leaderless fresh).trace_result
    ≡ finished false
        (codes "No healthy leader available for WAL append")
        (codes "End-to-end latency: 70ms")
        none
unfolding run_trace stages stages_with execute_step create_trace_steps update_step leader_thrown
    result_of result_card trim show
not_appended = refl

run_trace-Tells_example :
    Tells printer leaderless (causes printer leaderless) (run_trace leaderless fresh)
run_trace-Tells_example = run_trace-Tells printer leaderless fresh key_present refl
