-- ===== src/Dashboards/Mission.antt =====
-- pages/Dashboard.tsx: the chips of its header and its statistics, over the healthy nodes.
use vault_vk.Common.{
  ℕ, ◌==◌, max, Bool, true, false, List, [], ◌∷◌, ◌++◌, Option, none, some, length, find?,
  if◌then◌else◌,
}
use vault_vk.Text.{Text, codes}
use vault_vk.Text.Decimal.{show}
use vault_vk.Numbers.Defs.{Arith}
use vault_vk.Store.Defs.{NodeMeta, MetricsPoint, WsStatus, opened}
use vault_vk.Metrics.Snapshot.{healthy_nodes, sum_latency}
use vault_vk.Dashboards.{Printer, latest}
use vault_vk.Dashboards.Overview.{sum_keys}

pub data Tone : Type 0 where
  ok info danger neutral : Tone

pub record Chip : Type 0 where
  pub label : Text
  pub value : Text
  pub tone : Tone

pub record Stat : Type 0 where
  pub title : Text
  pub value : Text
  pub note : Text

-- The class of a chip.
unfoldable pub tone_class : Tone → Text
tone_class ok = codes "border-emerald-400/35 bg-emerald-500/10 text-emerald-200"
tone_class info = codes "border-sky-400/35 bg-sky-500/10 text-sky-200"
tone_class danger = codes "border-rose-400/35 bg-rose-500/10 text-rose-200"
tone_class neutral = codes "border-white/15 bg-white/5 text-zinc-200"

abbrev is_open : WsStatus → Bool
is_open opened = true
is_open s = false

-- The nodes without their two optional fields, the history, the status and the last update.
pub record Shown (N : Type 0) : Type 0 where
  pub nodes : List (NodeMeta N)
  pub history : List (MetricsPoint N)
  pub ws_status : WsStatus
  pub last_updated : Option N

module _ {N : Type 0} where
  unfoldable pub total_keys : List (NodeMeta N) → ℕ
  unfolding sum_keys
  total_keys nodes = sum_keys 0 (healthy_nodes nodes)

  -- Whether the page says that it waits for the first snapshot.
  unfoldable pub waits : Shown N → Bool
  waits s = length s.nodes == 0

module _ (F : Arith) where
  open F use {Num, nat, div}

  unfoldable pub avg_latency_us : List (NodeMeta Num) → Num
  avg_latency_us nodes =
      let healthy = healthy_nodes nodes in
      if length healthy == 0
      then nat 0
      else div (sum_latency F (nat 0) healthy) (nat (length healthy))

module _ (F : Arith) (p : Printer F.Num) where
  open F use {Num, nat, add}

  -- `lastUpdated ? … : "pending"` also takes the time 0 for none, which `Date.now()` never is.
  unfoldable pub chips : Shown Num → List Chip
  chips s =
      let healthy = length (healthy_nodes s.nodes) in
      record {
        label = codes "cluster";
        value = show healthy ++ codes "/" ++ show (max (length s.nodes) 3) ++ codes " healthy";
        tone = if healthy == 0 then danger else ok;
      }
      ∷ record {
        label = codes "leader";
        value = elim (find? (λ n. n.is_leader) s.nodes) [
          | some leader ↦ codes "node " ++ show leader.node_id
          | none ↦ codes "election"
        ];
        tone = info;
      }
      ∷ record {
        label = codes "throughput";
        value = elim (latest s.history) [
          | some pt ↦ p.locale (add pt.set_ops_per_sec pt.get_ops_per_sec) ++ codes " ops/s"
          | none ↦ codes "warming up"
        ];
        tone = neutral;
      }
      ∷ record {
        label = codes "last update";
        value = elim s.last_updated [ some t ↦ p.time t | none ↦ codes "pending" ];
        tone = if is_open s.ws_status then ok else neutral;
      }
      ∷ []

  unfoldable pub stats : Shown Num → List Stat
  unfolding total_keys avg_latency_us
  stats s =
      record {
        title = codes "Total Keys";
        value = p.locale (nat (total_keys s.nodes));
        note = codes "across healthy nodes";
      }
      ∷ record {
        title = codes "Avg Latency";
        value = p.fixed 0 (avg_latency_us F s.nodes) ++ codes " us";
        note = codes "healthy node mean";
      }
      ∷ record {
        title = codes "SET Ops/s";
        value = elim (latest s.history) [
          | some pt ↦ p.locale pt.set_ops_per_sec
          | none ↦ codes "0"
        ];
        note = codes "latest sample";
      }
      ∷ record {
        title = codes "GET Ops/s";
        value = elim (latest s.history) [
          | some pt ↦ p.locale pt.get_ops_per_sec
          | none ↦ codes "0"
        ];
        note = codes "latest sample";
      }
      ∷ []
