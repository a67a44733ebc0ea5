-- ===== src/Trace/Outcome.antt =====
-- When a trace succeeds, and what has to hold before its request is sent.
use mathlib.Core.Path.{ap₂}
use vault_vk.Common.{
  sym, ◌≡◌, refl, ◌∙◌, ◌≢◌, ◌↔◌, true, false, List, Option, none, some, arith, length, is_some,
}
use vault_vk.Text.Trim.{is_nil, trim}
use vault_vk.Store.Defs.{NodeMeta}
use vault_vk.Quorum.{quorum_reached-majority, healthy_count, has_majority, find_leader}
use vault_vk.Requests.Build.{Request}
use vault_vk.Trace.Defs.{
  idle, TraceResult, Thrown, Reply, Fetched, replied, rejected, create_trace_steps, update_step,
  execute_step, reply_thrown, trace_request, ack_thrown,
}
use vault_vk.Trace.Runner.{
  Inputs, View, leader_thrown, quorum_thrown, last_thrown, stages_with, stages, result_of,
  run_trace,
}
use vault_vk.Trace.Stages.{last_status}

-- The first of the three failures.
abbrev pub first_thrown : Option Thrown → Option Thrown → Option Thrown → Option Thrown
first_thrown none none c = c
first_thrown none (some e) c = some e
first_thrown (some e) b c = some e

ack_thrown-none :
    (o : Option Request) (f : Fetched)
    → ack_thrown o f ≡ none
    → (request : Request) × (reply : Reply) × (o ≡ some request)
      × (f ≡ replied reply)
      × (reply.ok ≡ true)
unfolding ack_thrown reply_thrown
ack_thrown-none none f h = cc
ack_thrown-none (some request) (rejected e) h = cc
ack_thrown-none (some request) (replied reply) h = (request, reply, refl, refl, ground arith)

ack_thrown_of_ok :
    (request : Request) (reply : Reply)
    → reply.ok ≡ true
    → ack_thrown (some request) (replied reply) ≡ none
unfolding ack_thrown reply_thrown
ack_thrown_of_ok request reply h = ground arith

first_thrown-none :
    (a b c : Option Thrown) → (first_thrown a b c ≡ none) ↔ ((a ≡ none) × (b ≡ none) × (c ≡ none))
first_thrown-none none none c = ground arith
first_thrown-none none (some e) c = ground arith
first_thrown-none (some e) b c = ground arith

module _ {N : Type 0} where
  pub stages_with-thrown :
      (i : Inputs N) (a b c : Option Thrown) → (stages_with i a b c).thrown ≡ first_thrown a b c
  unfolding stages_with execute_step
  stages_with-thrown i none none none = refl
  stages_with-thrown i none none (some e) = refl
  stages_with-thrown i none (some e) c = refl
  stages_with-thrown i (some e) b c = refl

  -- There is a healthy leader and more than half of the nodes are healthy.
  abbrev pub CanCommit : List (NodeMeta N) → Type 0
  CanCommit nodes = (is_some (find_leader nodes) ≡ true) × (has_majority nodes ≡ true)

  -- The key can be encoded, and the gateway's reply to the request is ok.
  abbrev pub Acknowledged : Inputs N → Type 0
  Acknowledged i =
      (request : Request) × (reply : Reply) × (trace_request i.trace_op i.trace_key i.trace_value
        ≡ some request)
      × (i.fetched ≡ replied reply)
      × (reply.ok ≡ true)

  leader_thrown-none :
      (nodes : List (NodeMeta N))
      → (leader_thrown nodes ≡ none) ↔ (is_some (find_leader nodes) ≡ true)
  unfolding leader_thrown
  leader_thrown-none nodes = ground arith

  quorum_thrown-none :
      (nodes : List (NodeMeta N)) → (quorum_thrown nodes ≡ none) ↔ (has_majority nodes ≡ true)
  unfolding quorum_thrown
  quorum_thrown-none nodes =
      ground (arith, quorum_reached-majority (length nodes) (healthy_count nodes))

  ok-thrown : (i : Inputs N) (o : Option Thrown) → ((result_of i o).ok ≡ true) ↔ (o ≡ none)
  unfolding result_of
  ok-thrown i none = ground arith
  ok-thrown i (some e) = ground arith

  stages-thrown : (i : Inputs N) → ((stages i).thrown ≡ none) ↔ (CanCommit i.nodes × Acknowledged i)
  unfolding stages last_thrown
  stages-thrown i =
      let a = leader_thrown i.nodes in
      let b = quorum_thrown i.nodes in
      let c = last_thrown i in
      (
        λ e.
            let (ha, hb, hc) = (first_thrown-none a b c).0 (sym (stages_with-thrown i a b c) ∙ e) in
            (
              ((leader_thrown-none i.nodes).0 ha, (quorum_thrown-none i.nodes).0 hb),
              ack_thrown-none _ i.fetched hc,
            ),
        λ h.
            let ack = h.1 in
            stages_with-thrown i a b c
            ∙ (first_thrown-none a b c).1 (
              (leader_thrown-none i.nodes).1 h.0.0,
              (quorum_thrown-none i.nodes).1 h.0.1,
              ap₂ ack_thrown ack.2 ack.3 ∙ ack_thrown_of_ok ack.0 ack.1 ack.4,
            ),
      )

  -- A trace of a key that is not blank, with none running, ends with a result, and that is a success
  -- exactly when there is a healthy leader, more than half of the nodes are healthy, the key can be
  -- encoded, and the gateway's reply is ok.
  pub run_trace-ok :
      (i : Inputs N) (view : View N)
      → is_nil (trim i.trace_key) ≡ false
      → view.trace_running ≡ false
      → (r : TraceResult N) × ((run_trace i view).trace_result ≡ some r)
        × ((r.ok ≡ true) ↔ (CanCommit i.nodes × Acknowledged i))
  unfolding run_trace
  run_trace-ok i view h k = (
    result_of i (stages i).thrown,
    ground arith,
    (
      λ e. (stages-thrown i).0 ((ok-thrown i (stages i).thrown).0 e),
      λ e. (ok-thrown i (stages i).thrown).1 ((stages-thrown i).1 e),
    ),
  )

  last_status_idle :
      (i : Inputs N) (a b c : Option Thrown)
      → last_status (stages_with i a b c).steps ≢ idle
      → (a ≡ none) × (b ≡ none)
  unfolding stages_with execute_step update_step create_trace_steps
  last_status_idle i none none c h = (refl, refl)
  last_status_idle i none (some e) c h = absurd (h refl)
  last_status_idle i (some e) b c h = absurd (h refl)

  -- The last stage, which sends the request, begins only with a healthy leader and with more than half
  -- of the nodes healthy.
  pub stages-CanCommit : (i : Inputs N) → last_status (stages i).steps ≢ idle → CanCommit i.nodes
  unfolding stages
  stages-CanCommit i h =
      let (a, b) = last_status_idle i _ _ (last_thrown i) h in
      ((leader_thrown-none i.nodes).0 a, (quorum_thrown-none i.nodes).0 b)
