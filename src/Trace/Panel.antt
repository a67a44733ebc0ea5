-- ===== src/Trace/Panel.antt =====
-- The state of `ArchitectureView`: the fields and buttons of the trace runner while a trace runs, and
-- the carousel of modules. A trace goes on with the fields and nodes of the render in which it began;
-- `advance` is its next change of the steps, made to the steps as they are then, and at last its end.
-- What the gateway and the clock answer to a trace is given with its click and read stage by stage.
use vault_vk.Common.{
  ℕ, suc, leb, ◌+◌, ◌%◌, Bool, true, false, ◌||◌, List, [], ◌∷◌, Option, none, some, if◌then◌else◌,
}
use vault_vk.Text.{Text, codes}
use vault_vk.Text.Trim.{is_nil, trim}
use vault_vk.Store.Defs.{NodeMeta}
use vault_vk.Requests.Build.{Op, get}
use vault_vk.Trace.Defs.{
  TraceStepState, running, success, error, Thrown, Fetched, with_ms, stage_message, update_step,
  create_trace_steps,
}
use vault_vk.Trace.Runner.{Inputs, View, stage_text, stage_thrown, result_of}

-- `pageModules`, in their order.
pub data Module : Type 0 where
  overview explorer consensus architecture : Module

unfoldable pub page_modules : List Module
page_modules = overview ∷ explorer ∷ consensus ∷ architecture ∷ []

unfoldable pub index_of : Module → ℕ
index_of overview = 0
index_of explorer = 1
index_of consensus = 2
index_of architecture = 3

-- Where `runTrace` is: its new steps are rendered, a stage is about to begin or waits, or the last one
-- has ended, with what was thrown.
pub data Phase : Type 0 where
  rendered : Phase
  about_to waits : (index : ℕ) → Phase
  over : Option Thrown → Phase

pub record Panel (N : Type 0) : Type 0 where
  pub trace_op : Op
  pub trace_key : Text
  pub trace_value : Text
  pub active_module : ℕ
  pub view : View N
  -- The trace that runs, and where it is.
  pub going : Option (Inputs N × Phase)

-- What a trace meets: the nodes of the render, the clock, and the gateway.
pub record Run (N : Type 0) : Type 0 where
  pub nodes : List (NodeMeta N)
  pub elapsed : ℕ → ℕ
  pub total_ms : N
  pub fetched : Fetched

pub data Event (N : Type 0) : Type 0 where
  -- The carousel's interval, and a click on a module.
  tick : Event N
  focus : Module → Event N
  choose_op : Op → Event N
  type_key type_value : Text → Event N
  reset : Event N
  run_clicked : Run N → Event N
  advance : Event N

-- The phase after a stage that has succeeded.
abbrev pub next_phase : ℕ → Phase
next_phase index = if leb 4 index then over none else about_to (suc index)

module _ {N : Type 0} where
  abbrev pub inputs : Run N → Panel N → Inputs N
  inputs r p = record {
    trace_op = p.trace_op;
    trace_key = p.trace_key;
    trace_value = p.trace_value;
    nodes = r.nodes;
    elapsed = r.elapsed;
    total_ms = r.total_ms;
    fetched = r.fetched;
  }

  -- Whether the button is disabled, which is also the guard of `runTrace`.
  unfoldable pub run_disabled : Panel N → Bool
  run_disabled p = p.view.trace_running || is_nil (trim p.trace_key)

  unfoldable pub run_label : Panel N → Text
  run_label p = if p.view.trace_running then codes "Running..." else codes "Run Trace"

  -- `runTrace` up to its first wait.
  unfoldable pub begin : Run N → Panel N → Panel N
  begin r p = record p {
    view = record { trace_steps = create_trace_steps; trace_running = true; trace_result = none };
    going = some (inputs r p, rendered);
  }

  -- The end of a stage's wait: the steps and the phase behind it.
  abbrev pub stage_ended :
      Inputs N → ℕ → Option Thrown → List TraceStepState → Phase × List TraceStepState
  stage_ended i index none steps = (
    next_phase index,
    update_step index success (with_ms (stage_text i index) (i.elapsed index)) steps,
  )
  stage_ended i index (some e) steps =
      (over (some e), update_step index error (with_ms (stage_message e) (i.elapsed index)) steps)

  -- The next change, to the steps as they are shown.
  abbrev pub changed :
      Inputs N → (ℕ → Option Thrown) → Phase → List TraceStepState → Phase × List TraceStepState
  changed i thrown rendered steps = (about_to 0, steps)
  changed i thrown (about_to index) steps =
      (waits index, update_step index running (stage_text i index) steps)
  changed i thrown (waits index) steps = stage_ended i index (thrown index) steps
  changed i thrown (over outcome) steps = (over outcome, steps)

  abbrev pub advanced : Option (Inputs N × Phase) → Panel N → Panel N
  advanced none p = p
  advanced (some (i, over thrown)) p = record p {
    view = record p.view { trace_running = false; trace_result = some (result_of i thrown) };
    going = none;
  }
  advanced (some (i, phase)) p =
      let (next, steps) = changed i (stage_thrown i) phase p.view.trace_steps in
      record p { view = record p.view { trace_steps = steps }; going = some (i, next) }

  unfoldable pub cleared : Panel N → Panel N
  cleared p = if p.view.trace_running then p else record p {
    view = record p.view { trace_steps = create_trace_steps; trace_result = none };
  }

  unfoldable pub step : Event N → Panel N → Panel N
  unfolding index_of run_disabled begin cleared
  step tick p = record p { active_module = (p.active_module + 1) % 4 }
  step (focus m) p = record p { active_module = index_of m }
  step (choose_op op) p = record p { trace_op = op }
  step (type_key key) p = record p { trace_key = key }
  step (type_value value) p = record p { trace_value = value }
  step reset p = cleared p
  step (run_clicked r) p = if run_disabled p then p else begin r p
  step advance p = advanced p.going p

  unfoldable pub opening : Panel N
  opening = record {
    trace_op = get;
    trace_key = codes "user:9421";
    trace_value = codes "{\"tier\":\"pro\",\"region\":\"ap-south-1\"}";
    active_module = 0;
    view = record { trace_steps = create_trace_steps; trace_running = false; trace_result = none };
    going = none;
  }

  abbrev pub run : Panel N → List (Event N) → Panel N
  run p [] = p
  run p (e ∷ es) = run (step e p) es
