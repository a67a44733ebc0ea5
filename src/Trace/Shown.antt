-- ===== src/Trace/Shown.antt =====
-- What `ArchitectureView` shows of the cluster and of a trace.
use vault_vk.Common.{
  ℕ, ◌+◌, max, List, [], ◌∷◌, ◌++◌, Option, none, some, length, get_elem?, if◌then◌else◌,
}
use vault_vk.Text.{Text, codes}
use vault_vk.Text.Decimal.{show}
use vault_vk.Numbers.Defs.{Arith}
use vault_vk.Store.Defs.{NodeMeta, MetricsPoint}
use vault_vk.Quorum.{quorum, healthy_count, find_leader}
use vault_vk.Dashboards.{Printer}
use vault_vk.Dashboards.Overview.{throughput}
use vault_vk.Trace.Defs.{
  TraceStepStatus, idle, running, success, error, TraceStepState, TraceResult,
}
use vault_vk.Trace.Runner.{quorum_reached}
use vault_vk.Trace.Panel.{Module, overview, explorer, consensus, architecture}

abbrev of_all : ℕ → ℕ → Text
of_all healthy total = show healthy ++ codes "/" ++ show total

-- An entry of `lifecycle`, of `pillars` and of `pageModules`.
pub record Stage : Type 0 where
  pub title : Text
  pub detail : Text

pub record Pillar : Type 0 where
  pub label : Text
  pub value : Text
  pub desc : Text

pub record PageModule : Type 0 where
  pub title : Text
  pub goal : Text
  pub input : Text
  pub output : Text
  pub signal : Text

abbrev stage : Text → Text → Stage
stage title detail = record { title = title; detail = detail }

abbrev pillar : Text → Text → Text → Pillar
pillar label value desc = record { label = label; value = value; desc = desc }

unfoldable pub pillars : List Pillar
pillars =
    pillar (codes "Frontend") (codes "React + Motion")
      (codes "Operator console with live charts, topology controls, and failure simulation.")
    ∷ pillar (codes "Gateway") (codes "FastAPI TLV Bridge") (
        codes
          "REST/WS ingress that validates payloads and translates them into compact TLV frames.")
    ∷ pillar (codes "Engine") (codes "C++17 + epoll")
        (codes "Low-latency event loop with WAL, MemTable updates, and background compaction.")
    ∷ pillar (codes "Consensus") (codes "Raft + Quorum ACK") (
        codes
          "Leader replicates logs to followers; write is acked only after majority confirmation.")
    ∷ []

abbrev pub status_text : TraceStepStatus → Text
status_text idle = codes "idle"
status_text running = codes "running"
status_text success = codes "success"
status_text error = codes "error"

-- A row of the trace: a stage of the life cycle with the status and the runtime of the step at its
-- place, if there is one.
pub record Row : Type 0 where
  pub title : Text
  pub detail : Text
  pub status : Text
  pub runtime : Option Text

abbrev row : Stage → Option TraceStepState → Row
row s none = record { title = s.title; detail = s.detail; status = codes "idle"; runtime = none }
row s (some t) = record {
  title = s.title;
  detail = s.detail;
  status = status_text t.status;
  runtime = some t.runtime;
}

abbrev pub rows_at : ℕ → List Stage → List TraceStepState → List Row
rows_at i [] steps = []
rows_at i (s ∷ stages) steps = row s (get_elem? steps i) ∷ rows_at (i + 1) stages steps

module _ {N : Type 0} where
  abbrev leader_id_text : Option (NodeMeta N) → Text
  leader_id_text none = codes "?"
  leader_id_text (some leader) = show leader.node_id

  unfoldable pub lifecycle : List (NodeMeta N) → List Stage
  lifecycle nodes =
      stage (codes "Client Request")
        (codes "Client sends GET/SET/DEL command over HTTPS or WebSocket to FastAPI ingress.")
      ∷ stage (codes "TLV Translation")
          (codes "Gateway normalizes request, adds metadata, and serializes as compact TLV frame.")
      ∷ stage (codes "Leader WAL Commit") (
          codes "Leader node "
          ++ leader_id_text (find_leader nodes)
          ++ codes " appends encrypted entry to WAL before replication.")
      ∷ stage (codes "Quorum Replication") (
          codes "Entry is replicated to followers until quorum "
          ++ of_all (quorum (length nodes)) (length nodes)
          ++ codes " is reached.")
      ∷ stage (codes "Client ACK") (
          codes
            "Gateway returns success only after majority ACK, guaranteeing linearizable writes.")
      ∷ []

  unfoldable pub trace_rows : List (NodeMeta N) → List TraceStepState → List Row
  trace_rows nodes steps = rows_at 0 (lifecycle nodes) steps

  unfoldable pub consensus_state : List (NodeMeta N) → Text
  consensus_state nodes = if quorum_reached nodes then codes "Quorum Ready" else codes "Degraded"

  unfoldable pub commit_rule : List (NodeMeta N) → Text
  commit_rule nodes = if quorum_reached nodes then codes "Can Commit" else codes "Blocked"

  unfoldable pub commit_need : List (NodeMeta N) → Text
  commit_need nodes =
      codes "Need "
      ++ show (quorum (length nodes))
      ++ codes " ACKs, currently "
      ++ of_all (healthy_count nodes) (length nodes)
      ++ codes " healthy."

  unfoldable pub active_leader : List (NodeMeta N) → Text × Text
  active_leader nodes = elim (find_leader nodes) [
    | some leader ↦
        (codes "Node " ++ show leader.node_id, leader.host ++ codes ":" ++ show leader.port)
    | none ↦ (codes "Unavailable", codes "No active leader")
  ]

  -- The word behind each replica.
  unfoldable pub replica_word : NodeMeta N → Text
  replica_word node =
      if node.is_leader
      then codes "leader"
      else if node.healthy
      then codes "follower"
      else codes "offline"

module _ (F : Arith) (p : Printer F.Num) where
  open F use {Num, nat, mul, div}

  -- The width of the quorum bars.
  unfoldable pub bar_width : List (NodeMeta Num) → Text
  bar_width nodes =
      p.plain (mul (div (nat (healthy_count nodes)) (nat (max 1 (length nodes)))) (nat 100))
      ++ codes "%"

  abbrev trace_signal : Option (TraceResult Num) → Text
  trace_signal none = codes "Ready to run trace"
  trace_signal (some r) =
      (if r.ok then codes "Trace success" else codes "Trace failed")
      ++ codes " "
      ++ (0xb7 ∷ codes " ")
      ++ p.fixed 2 r.latency_ms
      ++ codes "ms"

  abbrev leader_signal : Option (NodeMeta Num) → Text
  leader_signal none = codes "Leader unavailable"
  leader_signal (some leader) = codes "Leader Node " ++ show leader.node_id

  unfoldable pub page_module :
      List (NodeMeta Num) → List (MetricsPoint Num) → Option (TraceResult Num) → Module → PageModule
  page_module nodes history result overview = record {
    title = codes "Overview";
    goal = codes "Operational health at a glance";
    input = codes "Live WebSocket metrics + cluster snapshot";
    output = codes "Throughput chart, latency profile, node summary";
    signal = p.locale (throughput F history) ++ codes " ops/s live";
  }
  page_module nodes history result explorer = record {
    title = codes "Explorer";
    goal = codes "Direct key-value operations";
    input = codes "GET / SET / DEL / SCAN requests";
    output = codes "Low-latency responses with operation history";
    signal = codes "Gateway API path verification";
  }
  page_module nodes history result consensus = record {
    title = codes "Consensus";
    goal = codes "Fault tolerance and leader behavior";
    input = codes "Node kill/restart actions + replication state";
    output = codes "Election events, leader transitions, quorum behavior";
    signal = leader_signal (find_leader nodes);
  }
  page_module nodes history result architecture = record {
    title = codes "Architecture";
    goal = codes "End-to-end request lifecycle proof";
    input = codes "Trace runner command payload";
    output = codes "Stage-by-stage runtime and commit result";
    signal = trace_signal result;
  }
