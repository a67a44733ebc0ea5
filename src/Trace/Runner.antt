-- ===== src/Trace/Runner.antt =====
-- `runTrace` whole: its guards, the five stages, and the result.
use vault_vk.Common.{
  ℕ, zero, suc, Bool, true, false, ◌||◌, List, [], ◌∷◌, ◌++◌, Option, none, some, leb, length,
  if◌then◌else◌, is_some,
}
use vault_vk.Text.{Text, codes}
use vault_vk.Text.Decimal.{show}
use vault_vk.Text.Trim.{is_nil, trim}
use vault_vk.Store.Defs.{NodeMeta}
use vault_vk.Quorum.{quorum, healthy_count, find_leader}
use vault_vk.Requests.Build.{Op, get, set, del, scan}
use vault_vk.Trace.Defs.{
  TraceStepState, TraceResult, Thrown, error_of, other, Run, Fetched, rejected, replied, body_of,
  create_trace_steps, execute_step, trace_request, ack_thrown,
}

-- One call of `runTrace`: what the operator chose, the nodes of the render, the clock, and what the
-- gateway does.
pub record Inputs (N : Type 0) : Type 0 where
  pub trace_op : Op
  pub trace_key : Text
  pub trace_value : Text
  pub nodes : List (NodeMeta N)
  pub elapsed : ℕ → ℕ
  pub total_ms : N
  pub fetched : Fetched

-- `traceSteps`, `traceRunning`, `traceResult`.
pub record View (N : Type 0) : Type 0 where
  pub trace_steps : List TraceStepState
  pub trace_running : Bool
  pub trace_result : Option (TraceResult N)

abbrev pub op_text : Op → Text
op_text get = codes "GET"
op_text set = codes "SET"
op_text del = codes "DEL"
op_text scan = codes "SCAN"

abbrev fraction : ℕ → ℕ → Text
fraction h n = show h ++ codes "/" ++ show n

abbrev pub printed : Fetched → Text
printed (rejected e) = []
printed (replied r) = (body_of r).1

abbrev pub trace_message : Thrown → Text
trace_message (error_of message) = message
trace_message other = codes "Trace execution failed"

-- What each stage throws; the first two only wait.
abbrev pub thrown_at : Option Thrown → Option Thrown → Option Thrown → ℕ → Option Thrown
thrown_at at_leader at_quorum at_ack zero = none
thrown_at at_leader at_quorum at_ack (suc zero) = none
thrown_at at_leader at_quorum at_ack (suc (suc zero)) = at_leader
thrown_at at_leader at_quorum at_ack (suc (suc (suc zero))) = at_quorum
thrown_at at_leader at_quorum at_ack (suc (suc (suc (suc n)))) = at_ack

module _ {N : Type 0} where
  abbrev pub quorum_reached : List (NodeMeta N) → Bool
  quorum_reached nodes = leb (quorum (length nodes)) (healthy_count nodes)

  abbrev leader_text : Option (NodeMeta N) → Text
  leader_text none = codes "No leader available"
  leader_text (some leader) = codes "Leader node " ++ show leader.node_id ++ codes " appending WAL"

  unfoldable pub leader_thrown : List (NodeMeta N) → Option Thrown
  leader_thrown nodes =
      if is_some (find_leader nodes)
      then none
      else some (error_of (codes "No healthy leader available for WAL append"))

  unfoldable pub quorum_thrown : List (NodeMeta N) → Option Thrown
  quorum_thrown nodes =
      if quorum_reached nodes
      then none
      else some (
          error_of (
            codes "Quorum not met (" ++ fraction (healthy_count nodes) (length nodes) ++ codes ")"))

  unfoldable pub last_thrown : Inputs N → Option Thrown
  last_thrown i = ack_thrown (trace_request i.trace_op i.trace_key i.trace_value) i.fetched

  -- What `runTrace` writes into each stage while it runs.
  abbrev pub stage_text : Inputs N → ℕ → Text
  stage_text i zero = op_text i.trace_op ++ codes " " ++ i.trace_key ++ codes " received at gateway"
  stage_text i (suc zero) = codes "Converting JSON payload to TLV frame"
  stage_text i (suc (suc zero)) = leader_text (find_leader i.nodes)
  stage_text i (suc (suc (suc zero))) =
      codes "Replicating to " ++ fraction (healthy_count i.nodes) (length i.nodes) ++ codes " nodes"
  stage_text i (suc (suc (suc (suc n)))) = codes "Sending committed ACK response"

  abbrev pub stage_thrown : Inputs N → ℕ → Option Thrown
  stage_thrown i index =
      thrown_at (leader_thrown i.nodes) (quorum_thrown i.nodes) (last_thrown i) index

  -- The five stages; the first two only wait.
  unfoldable pub stages_with : Inputs N → Option Thrown → Option Thrown → Option Thrown → Run
  stages_with i at_leader at_quorum at_ack =
      let start : Run = record {
        steps = create_trace_steps;
        shown = create_trace_steps ∷ [];
        thrown = none;
      } in
      execute_step 4 (stage_text i 4) (i.elapsed 4) at_ack (
        execute_step 3 (stage_text i 3) (i.elapsed 3) at_quorum (
          execute_step 2 (stage_text i 2) (i.elapsed 2) at_leader (
            execute_step 1 (stage_text i 1) (i.elapsed 1) none
              (execute_step 0 (stage_text i 0) (i.elapsed 0) none start))))

  unfoldable pub stages : Inputs N → Run
  stages i = stages_with i (leader_thrown i.nodes) (quorum_thrown i.nodes) (last_thrown i)

  unfoldable pub result_of : Inputs N → Option Thrown → TraceResult N
  result_of i none = record {
    ok = true;
    message = op_text i.trace_op ++ codes " request committed and acknowledged.";
    latency_ms = i.total_ms;
    payload = printed i.fetched;
  }
  result_of i (some e) = record {
    ok = false;
    message = trace_message e;
    latency_ms = i.total_ms;
    payload = [];
  }

  -- `runTrace`: nothing happens for a blank key or while a trace runs.
  unfoldable pub run_trace : Inputs N → View N → View N
  run_trace i view =
      if is_nil (trim i.trace_key) || view.trace_running
      then view
      else let r = stages i in
        record {
          trace_steps = r.steps;
          trace_running = false;
          trace_result = some (result_of i r.thrown);
        }
