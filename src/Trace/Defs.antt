-- ===== src/Trace/Defs.antt =====
-- State and steps of `runTrace`. The waits and the clock are arguments: the milliseconds of each stage,
-- already rounded, and the total.
use vault_vk.Common.{ℕ, zero, suc, Bool, List, [], ◌∷◌, ◌++◌, Option, none, some, if◌then◌else◌}
use vault_vk.Text.{Text, codes}
use vault_vk.Text.Decimal.{show}
use vault_vk.Requests.Build.{Op, get, set, del, Request, build_request}

pub data TraceStepStatus : Type 0 where
  idle running success error : TraceStepStatus

pub record TraceStepState : Type 0 where
  pub title : Text
  pub detail : Text
  pub status : TraceStepStatus
  pub runtime : Text

pub record TraceResult (N : Type 0) : Type 0 where
  pub ok : Bool
  pub message : Text
  pub latency_ms : N
  pub payload : Text

abbrev waiting : Text → Text → TraceStepState
waiting title detail = record {
  title = title;
  detail = detail;
  status = idle;
  runtime = codes "Waiting to start.";
}

unfoldable pub create_trace_steps : List TraceStepState
create_trace_steps =
    waiting (codes "Client Request") (codes "Command reaches FastAPI ingress.")
    ∷ waiting (codes "TLV Translation") (codes "Gateway serializes payload into TLV frame.")
    ∷ waiting (codes "Leader WAL Commit") (codes "Leader appends encrypted WAL record.")
    ∷ waiting (codes "Quorum Replication") (codes "Entry replicates to majority of replicas.")
    ∷ waiting (codes "Client ACK") (codes "Gateway returns commit acknowledgement.")
    ∷ []

-- `prev.map((step, i) => (i === index ? { ...step, ...patch } : step))`
unfoldable pub update_step : ℕ → TraceStepStatus → Text → List TraceStepState → List TraceStepState
update_step index status runtime [] = []
update_step zero status runtime (step ∷ steps) =
    record step { status = status; runtime = runtime } ∷ steps
update_step (suc index) status runtime (step ∷ steps) =
    step ∷ update_step index status runtime steps

-- What a stage throws: an `Error` with its message, or something else.
pub data Thrown : Type 0 where
  error_of : Text → Thrown
  other : Thrown

-- The steps as shown, each change of them (the newest first), and what the stages so far came to.
pub record Run : Type 0 where
  pub steps : List TraceStepState
  pub shown : List (List TraceStepState)
  pub thrown : Option Thrown

abbrev show_steps : List TraceStepState → Run → Run
show_steps steps r = record r { steps = steps; shown = steps ∷ r.shown }

abbrev pub with_ms : Text → ℕ → Text
with_ms text elapsed = text ++ codes " (" ++ show elapsed ++ codes "ms)"

abbrev pub stage_message : Thrown → Text
stage_message (error_of message) = message
stage_message other = codes "Unknown failure"

-- `executeStep`: the stage does not begin after one that threw.
unfoldable pub execute_step : ℕ → Text → ℕ → Option Thrown → Run → Run
execute_step index runtime elapsed outcome r = elim r.thrown [
  | some e ↦ r
  | none ↦
      let begun = show_steps (update_step index running runtime r.steps) r in
      elim outcome [
        | none ↦ show_steps (update_step index success (with_ms runtime elapsed) begun.steps) begun
        | some e ↦
            record (show_steps
              (update_step index error (with_ms (stage_message e) elapsed) begun.steps) begun) {
                thrown = some e;
              }
      ]
]

-- The gateway's reply: whether it is ok, its status, and its body if that parses, with `detail` as
-- text where the body is an object that has it, and printed.
pub record Reply : Type 0 where
  pub ok : Bool
  pub status : ℕ
  pub body : Option (Option Text × Text)

-- `fetch` rejects with an error, or brings a reply.
pub data Fetched : Type 0 where
  rejected : Thrown → Fetched
  replied : Reply → Fetched

-- `{ detail: `HTTP ${status}` }` in place of a body that does not parse, and as it prints.
abbrev substitute : ℕ → Option Text × Text
substitute status =
    let text = codes "HTTP " ++ show status in
    (some text, 123 ∷ 10 ∷ codes "  \"detail\": \"" ++ text ++ (34 ∷ 10 ∷ 125 ∷ []))

abbrev pub body_of : Reply → Option Text × Text
body_of r = elim r.body [ none ↦ substitute r.status | some b ↦ b ]

unfoldable pub reply_thrown : Reply → Option Thrown
reply_thrown r =
    if r.ok
    then none
    else some (
        error_of (elim (body_of r).0 [
          | some detail ↦ detail
          | none ↦ codes "Gateway returned " ++ show r.status
        ]))

-- The request of the last stage, for the key as it was typed. The menu of the trace has no SCAN.
unfoldable pub trace_request : Op → Text → Text → Option Request
trace_request set key value = build_request set key value none
trace_request get key value = build_request get key value none
trace_request op key value = build_request del key value none

-- What the last stage throws; the encoding of a key throws a `URIError`.
unfoldable pub ack_thrown : Option Request → Fetched → Option Thrown
ack_thrown none fetched = some (error_of (codes "URI malformed"))
ack_thrown (some request) (rejected e) = some e
ack_thrown (some request) (replied r) = reply_thrown r
