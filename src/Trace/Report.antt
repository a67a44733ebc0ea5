-- ===== src/Trace/Report.antt =====
-- The card of a trace's result, and what it and the stages tell of how the trace went.
use vault_vk.Common.{
  ℕ, ◌≡◌, refl, inl, inr, ◌⊎◌, Bool, true, false, List, [], ◌∷◌, ◌++◌, Option, none, some,
  get_elem?, take, ◌||◌, All, if◌then◌else◌,
}
use vault_vk.Text.{Text, codes}
use vault_vk.Text.Trim.{is_nil, trim}
use vault_vk.Dashboards.{Printer}
use vault_vk.Trace.Defs.{
  success, error, TraceStepState, TraceResult, Thrown, with_ms, stage_message, create_trace_steps,
  update_step, execute_step,
}
use vault_vk.Trace.Runner.{
  op_text, Inputs, View, printed, trace_message, leader_thrown, quorum_thrown, last_thrown,
  stages_with, stages, result_of, run_trace,
}
use vault_vk.Trace.Outcome.{first_thrown, stages_with-thrown}

-- A finished trace: whether in the tone of a success, its message, its latency, and its payload where
-- that is not empty.
pub data ResultCard : Type 0 where
  invitation : ResultCard
  finished : (good : Bool) (message latency : Text) (payload : Option Text) → ResultCard

abbrev non_empty : Text → Option Text
non_empty s = if is_nil s then none else some s

module _ {N : Type 0} (p : Printer N) where
  abbrev latency_line : N → Text
  latency_line ms = codes "End-to-end latency: " ++ p.fixed 2 ms ++ codes "ms"

  unfoldable pub result_card : Option (TraceResult N) → ResultCard
  result_card none = invitation
  result_card (some r) = finished r.ok r.message (latency_line r.latency_ms) (non_empty r.payload)

  -- The failures that the five stages meet, in order; the first two only wait.
  abbrev pub causes : Inputs N → List (Option Thrown)
  causes i = none ∷ none ∷ leader_thrown i.nodes ∷ quorum_thrown i.nodes ∷ last_thrown i ∷ []

  -- The stage at this place is the first to fail, of this cause, and its line says so.
  abbrev pub FailsAt : ℕ → Thrown → (ℕ → ℕ) → List (Option Thrown) → List TraceStepState → Type 0
  FailsAt k e elapsed met steps =
      (s : TraceStepState) × (get_elem? met k ≡ some (some e))
      × All (λ t. t.status ≡ success) (take k steps)
      × (get_elem? steps k ≡ some s)
      × (s.status ≡ error)
      × (s.runtime ≡ with_ms (stage_message e) (elapsed k))

  abbrev pub Tells : Inputs N → List (Option Thrown) → View N → Type 0
  Tells i met v =
      (All (λ t. t.status ≡ success) v.trace_steps
        × (result_card v.trace_result
            ≡ finished true (op_text i.trace_op ++ codes " request committed and acknowledged.")
                (latency_line i.total_ms) (non_empty (printed i.fetched))))
      ⊎ ((k : ℕ) × (e : Thrown) × FailsAt k e i.elapsed met v.trace_steps
          × (result_card v.trace_result
              ≡ finished false (trace_message e) (latency_line i.total_ms) none))

  stages_with-Tells :
      (i : Inputs N) (a b c : Option Thrown)
      → Tells i (none ∷ none ∷ a ∷ b ∷ c ∷ []) (record {
        trace_steps = (stages_with i a b c).steps;
        trace_running = false;
        trace_result = some (result_of i (first_thrown a b c));
      })
  unfolding stages_with execute_step update_step create_trace_steps result_of result_card
  stages_with-Tells i none none none = inl ((refl, (refl, (refl, (refl, (refl, tt))))), refl)
  stages_with-Tells i none none (some e) =
      inr (4, e, (_, refl, (refl, (refl, (refl, (refl, tt)))), refl, refl, refl), refl)
  stages_with-Tells i none (some e) c =
      inr (3, e, (_, refl, (refl, (refl, (refl, tt))), refl, refl, refl), refl)
  stages_with-Tells i (some e) b c =
      inr (2, e, (_, refl, (refl, (refl, tt)), refl, refl, refl), refl)

  -- A trace of a key that is not blank, with none running, is told in one of two ways. Either all five
  -- stages are shown as succeeded and the card shows the success, with the gateway's answer if it has
  -- a text; or one stage is shown as failed, the first that met a failure, with those before it
  -- succeeded, and its line and the card give the failure's message, or each its own words where it has
  -- none.
  pub run_trace-Tells :
      (i : Inputs N) (view : View N)
      → is_nil (trim i.trace_key) ≡ false
      → view.trace_running ≡ false
      → Tells i (causes i) (run_trace i view)
  unfolding run_trace stages
  run_trace-Tells i view h k =
      let a = leader_thrown i.nodes in
      let b = quorum_thrown i.nodes in
      let c = last_thrown i in
      rw (h, k, ◌||◌, if◌then◌else◌, stages_with-thrown i a b c) (stages_with-Tells i a b c)
