-- ===== src/Failover/Defs.antt =====
-- `killNode` and `restartNode` of pages/Raft.tsx, each before and after its wait, and the interval that
-- polls for a new leader. `ts` is what `Date.now()` gives; within one handler it stands still.
use vault_vk.Common.{
  ◌≡◌, String, ℕ, zero, suc, ◌+◌, Bool, true, false, ◌&&◌, List, ◌∷◌, ◌++◌, Option, none, some,
  take, ltb, ◌==◌, if◌then◌else◌, get_or_else, find?,
}
use vault_vk.Text.{Text, codes}
use vault_vk.Text.Decimal.{show}
use vault_vk.Store.Defs.{NodeMeta}
use vault_vk.Quorum.{find_leader}

pub record EventRow (N : Type 0) : Type 0 where
  pub ts : N
  pub msg : Text
  pub color : Text

module _ {N : Type 0} where
  -- `log(msg, color)`
  unfoldable pub log : N → Text → Text → List (EventRow N) → List (EventRow N)
  log ts msg color events = record { ts = ts; msg = msg; color = color } ∷ take 79 events

-- What the gateway's answer to a kill or a restart comes to: an exception with its message, or `res.ok`
-- with `data.ok` and `data.stderr ?? data.detail`.
pub data Reply : Type 0 where
  threw : Text → Reply
  answered : (ok data_ok : Bool) → (reason : Option Text) → Reply

-- The interval and the variables that its callback closes over.
pub record Watch : Type 0 where
  pub prev_leader : Option ℕ
  pub attempts : ℕ
  -- The interval is not cleared.
  pub polling : Bool
  -- Callbacks that wait for the gateway.
  pub in_flight : ℕ

abbrev failed_text : String → Option Text → Text
failed_text before reason = codes before ++ get_or_else reason (codes "unknown error")

abbrev pub same_leader : ℕ → Option ℕ → Bool
same_leader id none = false
same_leader id (some prev) = id == prev

module _ {N : Type 0} where
  -- `nodes.find((n) => n.is_leader)?.node_id`
  abbrev pub any_leader : List (NodeMeta N) → Option ℕ
  any_leader nodes = elim (find? (λ n. n.is_leader) nodes) [ none ↦ none | some n ↦ some n.node_id ]

  unfoldable pub begin_kill : N → ℕ → List (EventRow N) → List (EventRow N)
  unfolding log
  begin_kill ts id events =
      log ts (codes "Killing node " ++ show id ++ codes "...") (codes "text-amber-300") events

  abbrev pub stopped : N → ℕ → List (EventRow N) → List (EventRow N)
  stopped ts id events =
      log ts (codes "Node " ++ show id ++ codes " stopped. Watching for new leader election...")
        (codes "text-red-300") events

  -- The rest of `killNode`: the events, and the watch if one begins. `nodes` are those of the render in
  -- which the kill was asked for.
  unfoldable pub after_kill :
      N → ℕ → List (NodeMeta N) → Reply → List (EventRow N) → List (EventRow N) × Option Watch
  after_kill ts id nodes (threw message) events =
      (log ts (codes "Kill request error: " ++ message) (codes "text-red-400") events, none)
  after_kill ts id nodes (answered ok data_ok reason) events =
      if ok && data_ok
      then (
        stopped ts id events,
        some (record {
          prev_leader = any_leader nodes;
          attempts = 0;
          polling = true;
          in_flight = 0;
        }),
      )
      else (log ts (failed_text "Kill failed: " reason) (codes "text-red-400") events, none)

  unfoldable pub begin_restart : N → ℕ → List (EventRow N) → List (EventRow N)
  begin_restart ts id events =
      log ts (codes "Restarting node " ++ show id ++ codes "...") (codes "text-zinc-300") events

  unfoldable pub after_restart : N → ℕ → Reply → List (EventRow N) → List (EventRow N)
  after_restart ts id (threw message) events =
      log ts (codes "Restart request error: " ++ message) (codes "text-red-400") events
  after_restart ts id (answered ok data_ok reason) events =
      if ok && data_ok
      then log ts (codes "Node " ++ show id ++ codes " is back online.") (codes "text-sky-300")
          events
      else log ts (failed_text "Restart failed: " reason) (codes "text-red-400") events

  -- The leader that a poll finds, if it is not the one before the kill; a poll that throws finds none.
  unfoldable pub new_leader : Option ℕ → Option (List (NodeMeta N)) → Option ℕ
  new_leader prev none = none
  new_leader prev (some nodes) = elim (find_leader nodes) [
    | none ↦ none
    | some n ↦ if same_leader n.node_id prev then none else some n.node_id
  ]

  abbrev pub log_elected : N → ℕ → List (EventRow N) → List (EventRow N)
  log_elected ts id events =
      log ts (codes "New leader elected: Node " ++ show id) (codes "text-teal-300") events

  abbrev pub log_timeout : N → List (EventRow N) → List (EventRow N)
  log_timeout ts events =
      log ts (codes "Timeout waiting for election") (codes "text-red-400") events

-- The page's events with the watch of one kill.
pub record Failover (N : Type 0) : Type 0 where
  pub events : List (EventRow N)
  pub watch : Watch

module _ {N : Type 0} where
  abbrev pub found : N → Option ℕ → Failover N → Failover N
  found ts none f = f
  found ts (some id) f = record {
    events = log_elected ts id f.events;
    watch = record f.watch { polling = false };
  }

  abbrev pub counted : N → Failover N → Failover N
  counted ts f =
      let attempts = f.watch.attempts + 1 in
      if ltb 20 attempts
      then record {
        events = log_timeout ts f.events;
        watch = record f.watch { attempts = attempts; polling = false };
      }
      else record f { watch = record f.watch { attempts = attempts } }

  -- The interval's callback after its wait.
  unfoldable pub on_polled : N → Option (List (NodeMeta N)) → Failover N → Failover N
  on_polled ts reply f = counted ts (found ts (new_leader f.watch.prev_leader reply) f)

pub data Event (N : Type 0) : Type 0 where
  tick : Event N
  polled : N → Option (List (NodeMeta N)) → Event N

module _ {N : Type 0} where
  abbrev pub landed : ℕ → N → Option (List (NodeMeta N)) → Failover N → Option (Failover N)
  landed zero ts reply f = none
  landed (suc n) ts reply f =
      some (on_polled ts reply (record f { watch = record f.watch { in_flight = n } }))

  -- None where the browser cannot raise the event.
  unfoldable pub step : Event N → Failover N → Option (Failover N)
  unfolding on_polled
  step tick f =
      if f.watch.polling
      then some (record f { watch = record f.watch { in_flight = f.watch.in_flight + 1 } })
      else none
  step (polled ts reply) f = landed f.watch.in_flight ts reply f

  pub data Reach (f : Failover N) : Failover N → Type 0 where
    here : Reach f f
    next : {g h : Failover N} (e : Event N) → Reach f g → step e g ≡ some h → Reach f h
