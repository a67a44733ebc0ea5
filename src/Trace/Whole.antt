-- ===== src/Trace/Whole.antt =====
-- A trace that runs while the operator works on, against `runTrace` as one step.
use mathlib.Core.Option.{some-injective}
use vault_vk.Common.{
  subst, ℕ, zero, suc, ◌≡◌, refl, ap, sym, ◌∙◌, Bool, true, false, List, [], ◌∷◌, ◌++◌, Option,
  none, some, arith, length,
}
use vault_vk.Trace.Defs.{TraceStepState, TraceResult, Thrown, create_trace_steps, execute_step}
use vault_vk.Trace.Runner.{
  View, Inputs, thrown_at, stage_thrown, stages, stages_with, result_of, run_trace, leader_thrown,
  quorum_thrown, last_thrown,
}
use vault_vk.Trace.Panel.{
  Panel, Run, Event, Phase, rendered, about_to, waits, over, changed, advanced, run_clicked,
  advance, inputs, run_disabled, begin, cleared, step, run,
}

module _ {N : Type 0} where
  abbrev pub advances : List (Event N) → ℕ
  advances [] = 0
  advances (advance ∷ es) = suc (advances es)
  advances (e ∷ es) = advances es

  -- A trace, at a phase, with the steps that it shows.
  abbrev IsAt : Inputs N → Phase × List TraceStepState → Panel N → Type 0
  IsAt i t p =
      (p.going ≡ some (i, t.0)) × (p.view.trace_steps ≡ t.1) × (p.view.trace_running ≡ true)

  -- The changes of a trace, none of them made when it is over.
  abbrev goes :
      Inputs N
      → (ℕ → Option Thrown)
      → ℕ
      → Phase × List TraceStepState
      → Option (Phase × List TraceStepState)
  goes i thrown zero t = some t
  goes i thrown (suc n) (over outcome, steps) = none
  goes i thrown (suc n) (rendered, steps) = goes i thrown n (changed i thrown rendered steps)
  goes i thrown (suc n) (about_to index, steps) =
      goes i thrown n (changed i thrown (about_to index) steps)
  goes i thrown (suc n) (waits index, steps) =
      goes i thrown n (changed i thrown (waits index) steps)

  -- What `advance` makes of a phase before the end.
  moved :
      (i : Inputs N) (phase : Phase) (steps : List TraceStepState) (p : Panel N)
      → IsAt i (phase, steps) p
      → advanced (some (i, phase)) p ≡ record p {
        view = record p.view {
          trace_steps = (changed i (stage_thrown i) phase p.view.trace_steps).1;
        };
        going = some (i, (changed i (stage_thrown i) phase p.view.trace_steps).0);
      }
      → IsAt i (changed i (stage_thrown i) phase steps) (step advance p)
  unfolding step
  moved i phase steps p (going, shown, on) q =
      subst (IsAt i (changed i (stage_thrown i) phase steps))
        (sym (ap (λ g. advanced g p) going ∙ q))
        (
          ap (λ s. some (i, (changed i (stage_thrown i) phase s).0)) shown,
          ap (λ s. (changed i (stage_thrown i) phase s).1) shown,
          on,
        )

  advance-IsAt :
      (i : Inputs N) (n : ℕ) (t end : Phase × List TraceStepState) (p : Panel N)
      → IsAt i t p
      → goes i (stage_thrown i) (suc n) t ≡ some end
      → IsAt i (changed i (stage_thrown i) t.0 t.1) (step advance p)
        × (goes i (stage_thrown i) n (changed i (stage_thrown i) t.0 t.1) ≡ some end)
  advance-IsAt i n (rendered, steps) end p v h = (moved i rendered steps p v refl, h)
  advance-IsAt i n (about_to index, steps) end p v h = (moved i (about_to index) steps p v refl, h)
  advance-IsAt i n (waits index, steps) end p v h = (moved i (waits index) steps p v refl, h)
  advance-IsAt i n (over outcome, steps) end p v h = absurd (ground (arith, h))

  -- Nothing but `advance` touches a trace that is under way.
  abbrev is_advance : Event N → Bool
  is_advance advance = true
  is_advance e = false

  step-IsAt :
      (e : Event N) (i : Inputs N) (t : Phase × List TraceStepState) (p : Panel N)
      → IsAt i t p
      → is_advance e ≡ false
      → IsAt i t (step e p)
  unfolding step run_disabled cleared
  step-IsAt e i t p v h = ground arith

  run-IsAt :
      (es : List (Event N)) (i : Inputs N) (t end : Phase × List TraceStepState) (p : Panel N)
      → IsAt i t p
      → goes i (stage_thrown i) (advances es) t ≡ some end
      → IsAt i end (run p es)
  run-IsAt [] i t end p v h = subst (λ t. IsAt i t p) (some-injective t end h) v
  run-IsAt (advance ∷ es) i t end p v h =
      let k = advance-IsAt i (advances es) t end p v h in
      run-IsAt es i (changed i (stage_thrown i) t.0 t.1) end (step advance p) k.0 k.1
  run-IsAt (e ∷ es) i t end p v h = run-IsAt es i t end (step e p) (step-IsAt e i t p v refl) h

  run-append : (p : Panel N) (es fs : List (Event N)) → run p (es ++ fs) ≡ run (run p es) fs
  run-append p [] fs = refl
  run-append p (e ∷ es) fs = run-append (step e p) es fs

  stages_with-goes :
      (i : Inputs N) (a b c : Option Thrown)
      → goes i (thrown_at a b c) (length (stages_with i a b c).shown) (rendered, create_trace_steps)
        ≡ some (over (stages_with i a b c).thrown, (stages_with i a b c).steps)
  unfolding stages_with execute_step
  stages_with-goes i none none none = refl
  stages_with-goes i none none (some e) = refl
  stages_with-goes i none (some e) c = refl
  stages_with-goes i (some e) b c = refl

  begun : (r : Run N) (p : Panel N) → run_disabled p ≡ false → step (run_clicked r) p ≡ begin r p
  unfolding step
  begun r p h = ground arith

  begin-IsAt :
      (r : Run N) (p : Panel N) (es : List (Event N))
      → advances es ≡ length (stages (inputs r p)).shown
      → IsAt
          (inputs r p)
          (over (stages (inputs r p)).thrown, (stages (inputs r p)).steps)
          (run (begin r p) es)
  unfolding begin stages
  begin-IsAt r p es k =
      let i = inputs r p in
      run-IsAt es i (rendered, create_trace_steps) _ (begin r p) (refl, refl, refl)
        (ap (λ n. goes i (stage_thrown i) n (rendered, create_trace_steps)) k
          ∙ stages_with-goes i (leader_thrown i.nodes) (quorum_thrown i.nodes) (last_thrown i))

  abbrev finished : List TraceStepState → TraceResult N → View N
  finished steps t = record { trace_steps = steps; trace_running = false; trace_result = some t }

  end_of :
      (i : Inputs N) (thrown : Option Thrown) (steps : List TraceStepState) (p : Panel N)
      → IsAt i (over thrown, steps) p
      → (step advance p).view ≡ finished steps (result_of i thrown)
  unfolding step
  end_of i thrown steps p (going, shown, on) =
      ap (λ g. (advanced g p).view) going ∙ ap (λ s. finished s (result_of i thrown)) shown

  run_trace_enabled :
      (r : Run N) (p : Panel N)
      → run_disabled p ≡ false
      → run_trace (inputs r p) p.view
        ≡ finished (stages (inputs r p)).steps (result_of (inputs r p) (stages (inputs r p)).thrown)
  unfolding run_trace run_disabled
  run_trace_enabled r p h = ground arith

  -- A trace that is begun with a key and no other trace running, whatever the operator types, chooses
  -- and clicks while it runs and however often the carousel turns: once it has shown all its changes
  -- and has ended, the panel shows what `runTrace` as one step comes to with the fields and nodes of
  -- its start.
  pub run-run_trace :
      (p : Panel N) (r : Run N) (es : List (Event N))
      → run_disabled p ≡ false
      → advances es ≡ length (stages (inputs r p)).shown
      → (run p ((run_clicked r ∷ es) ++ advance ∷ [])).view ≡ run_trace (inputs r p) p.view
  run-run_trace p r es h k =
      ap (λ q. q.view)
        (run-append p (run_clicked r ∷ es) (advance ∷ [])
          ∙ ap (λ q. step advance (run q es)) (begun r p h))
      ∙ end_of (inputs r p) (stages (inputs r p)).thrown (stages (inputs r p)).steps
          (run (begin r p) es) (begin-IsAt r p es k)
      ∙ sym (run_trace_enabled r p h)
