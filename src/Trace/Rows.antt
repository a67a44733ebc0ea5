-- ===== src/Trace/Rows.antt =====
-- The rows of the trace: which step each stage of the life cycle is shown with.
use vault_vk.Common.{
  ℕ, zero, suc, ap, ◌∙◌, ◌≡◌, refl, sym, List, [], ◌∷◌, map, Option, none, some, arith,
}
use vault_vk.Text.{Text}
use vault_vk.Store.Defs.{NodeMeta}
use vault_vk.Trace.Defs.{TraceStepState, TraceStepStatus, Thrown, create_trace_steps, update_step}
use vault_vk.Trace.Runner.{Inputs, stage_thrown}
use vault_vk.Trace.Panel.{
  Panel, Event, tick, focus, choose_op, type_key, type_value, reset, run_clicked, advance, begin,
  Phase, rendered, about_to, waits, over, stage_ended, advanced, cleared, step, opening, run,
}
use vault_vk.Trace.Shown.{Row, lifecycle, trace_rows, status_text}

abbrev titles : List TraceStepState → List Text
titles = map (λ s. s.title)

-- The steps are the five of the life cycle, in its order.
abbrev IsTitled : List TraceStepState → Type 0
IsTitled steps = titles steps ≡ titles create_trace_steps

titles-update_step :
    (index : ℕ) (status : TraceStepStatus) (runtime : Text) (steps : List TraceStepState)
    → titles (update_step index status runtime steps) ≡ titles steps
unfolding update_step
titles-update_step index status runtime [] = refl
titles-update_step zero status runtime (s ∷ steps) = refl
titles-update_step (suc index) status runtime (s ∷ steps) =
    ap (◌∷◌ s.title) (titles-update_step index status runtime steps)

-- The rows carry the titles of the steps, and their status.
abbrev pub FitsSteps : List Row → List TraceStepState → Type 0
FitsSteps rows steps =
    (map (λ r. r.title) rows ≡ titles steps)
    × (map (λ r. r.status) rows ≡ map (λ s. status_text s.status) steps)

module _ {N : Type 0} where
  abbrev AllTitled : Panel N → Type 0
  AllTitled p = IsTitled p.view.trace_steps

  stage_ended-IsTitled :
      (i : Inputs N) (index : ℕ) (outcome : Option Thrown) (steps : List TraceStepState)
      → IsTitled steps
      → IsTitled (stage_ended i index outcome steps).1
  stage_ended-IsTitled i index none steps h = titles-update_step index _ _ steps ∙ h
  stage_ended-IsTitled i index (some e) steps h = titles-update_step index _ _ steps ∙ h

  advanced-AllTitled :
      (g : Option (Inputs N × Phase)) (p : Panel N) → AllTitled p → AllTitled (advanced g p)
  advanced-AllTitled none p h = h
  advanced-AllTitled (some (i, rendered)) p h = h
  advanced-AllTitled (some (i, about_to index)) p h =
      titles-update_step index _ _ p.view.trace_steps ∙ h
  advanced-AllTitled (some (i, waits index)) p h =
      stage_ended-IsTitled i index (stage_thrown i index) p.view.trace_steps h
  advanced-AllTitled (some (i, over outcome)) p h = h

  step-AllTitled : (e : Event N) (p : Panel N) → AllTitled p → AllTitled (step e p)
  unfolding step cleared begin
  step-AllTitled tick p h = h
  step-AllTitled (focus m) p h = h
  step-AllTitled (choose_op op) p h = h
  step-AllTitled (type_key key) p h = h
  step-AllTitled (type_value value) p h = h
  step-AllTitled reset p h = ground arith
  step-AllTitled (run_clicked r) p h = ground arith
  step-AllTitled advance p h = advanced-AllTitled p.going p h

  run-AllTitled : (es : List (Event N)) (p : Panel N) → AllTitled p → AllTitled (run p es)
  run-AllTitled [] p h = h
  run-AllTitled (e ∷ es) p h = run-AllTitled es (step e p) (step-AllTitled e p h)

  trace_rows-FitsSteps :
      (nodes : List (NodeMeta N)) (steps : List TraceStepState)
      → IsTitled steps
      → FitsSteps (trace_rows nodes steps) steps
  unfolding trace_rows lifecycle create_trace_steps
  trace_rows-FitsSteps nodes [] h = absurd (ground arith)
  trace_rows-FitsSteps nodes (a ∷ []) h = absurd (ground arith)
  trace_rows-FitsSteps nodes (a ∷ b ∷ []) h = absurd (ground arith)
  trace_rows-FitsSteps nodes (a ∷ b ∷ c ∷ []) h = absurd (ground arith)
  trace_rows-FitsSteps nodes (a ∷ b ∷ c ∷ d ∷ []) h = absurd (ground arith)
  trace_rows-FitsSteps nodes (a ∷ b ∷ c ∷ d ∷ e ∷ []) h = (sym h, refl)
  trace_rows-FitsSteps nodes (a ∷ b ∷ c ∷ d ∷ e ∷ f ∷ steps) h = absurd (ground arith)

  -- From the opening of the view, after any traces, resets and clicks, and with any nodes: the rows of
  -- the life cycle have the titles of the trace's steps, in their order, and each shows the status of
  -- the step with its title.
  pub run-opening-FitsSteps :
      (nodes : List (NodeMeta N)) (es : List (Event N))
      → FitsSteps
          (trace_rows nodes (run opening es).view.trace_steps)
          (run opening es).view.trace_steps
  unfolding opening
  run-opening-FitsSteps nodes es =
      trace_rows-FitsSteps nodes (run opening es).view.trace_steps (run-AllTitled es opening refl)
