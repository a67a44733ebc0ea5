-- ===== src/Trace/Stages.antt =====
-- The order of the stages, in everything that is shown while a trace runs.
use vault_vk.Common.{◌≡◌, Bool, true, false, List, [], ◌∷◌, map, Option, none, some, arith, All}
use vault_vk.Trace.Runner.{Inputs, leader_thrown, quorum_thrown, last_thrown, stages_with, stages}
use vault_vk.Trace.Defs.{
  TraceStepStatus, idle, success, TraceStepState, Thrown, create_trace_steps, update_step,
  execute_step,
}

abbrev all_idle : List TraceStepStatus → Bool
all_idle [] = true
all_idle (idle ∷ ss) = all_idle ss
all_idle (s ∷ ss) = false

-- Stages that succeeded, then at most one that runs or failed, then stages that have not begun.
abbrev in_order : List TraceStepStatus → Bool
in_order [] = true
in_order (success ∷ ss) = in_order ss
in_order (s ∷ ss) = all_idle ss

abbrev pub statuses : List TraceStepState → List TraceStepStatus
statuses = map (λ s. s.status)

abbrev pub IsInOrder : List TraceStepState → Type 0
IsInOrder steps = in_order (statuses steps) ≡ true

-- The status of the last stage, when the trace is over.
abbrev pub last_status : List TraceStepState → TraceStepStatus
last_status (a ∷ b ∷ c ∷ d ∷ e ∷ []) = e.status
last_status steps = idle

module _ {N : Type 0} where
  stages_with-IsInOrder :
      (i : Inputs N) (a b c : Option Thrown) → All IsInOrder (stages_with i a b c).shown
  unfolding stages_with execute_step update_step create_trace_steps
  stages_with-IsInOrder i none none none = ground arith
  stages_with-IsInOrder i none none (some e) = ground arith
  stages_with-IsInOrder i none (some e) c = ground arith
  stages_with-IsInOrder i (some e) b c = ground arith

  -- Whatever the nodes, the gateway and the clock do: in every list of stages that a trace shows, from
  -- its start to its end, some stages have succeeded, at most one after them runs or has failed, and
  -- none behind has begun.
  pub stages-IsInOrder : (i : Inputs N) → All IsInOrder (stages i).shown
  unfolding stages
  stages-IsInOrder i =
      stages_with-IsInOrder i (leader_thrown i.nodes) (quorum_thrown i.nodes) (last_thrown i)
