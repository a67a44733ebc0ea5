-- ===== src/Notifications/History.antt =====
-- The notification centre over a run of the page, beside a log of all that was announced.
use vault_vk.Common.{
  map-take, ℕ, ◌+◌, ◌≡◌, refl, ap, ◌∙◌, Bool, true, false, not, List, [], ◌∷◌, map, arith, length,
  take, take-take-suc, if◌then◌else◌,
}
use vault_vk.Text.{codes}
use vault_vk.Store.Defs.{NodeMeta, WsStatus}
use vault_vk.Notifications.Centre.{
  info, Notice, NotificationItem, Stamp, item, push_notification, mark_read,
}
use vault_vk.Notifications.Watch.{status_notices, nodes_notices}

-- The state of `App` that the notifications turn on: `notifications`, `notificationsOpen`, and the
-- references `nodesInitializedRef`, `prevWsStatusRef`, `prevNodesRef`. `calls` counts the calls of
-- `pushNotification`, each of which reads the clock and a random number.
pub record Bell (N : Type 0) : Type 0 where
  pub notifications : List (NotificationItem N)
  pub notifications_open : Bool
  pub nodes_initialized : Bool
  pub prev_ws_status : WsStatus
  pub prev_nodes : List (NodeMeta N)
  pub calls : ℕ

-- A render with another status or other nodes, and the clicks and keys that work on the list.
pub data Event (N : Type 0) : Type 0 where
  status_changed : WsStatus → Event N
  nodes_changed : List (NodeMeta N) → Event N
  toggled closed_list cleared : Event N

module _ {N : Type 0} where
  -- What an event announces.
  unfoldable pub notices_of : Event N → Bell N → List Notice
  notices_of (status_changed s) b = status_notices b.prev_ws_status s
  notices_of (nodes_changed nodes) b =
      if b.nodes_initialized then nodes_notices b.prev_nodes nodes else []
  notices_of e b = []

-- The first effect of the page.
abbrev pub online : Notice
online = record {
  title = codes "Notification Center Online";
  detail = codes "Watching connection state, node health, and quorum readiness.";
  level = info;
}

module _ {N : Type 0} where
  abbrev pub unread : NotificationItem N → NotificationItem N
  unread it = record it { read = false }

  map-unread-mark_read :
      (items : List (NotificationItem N)) → map unread (mark_read items) ≡ map unread items
  unfolding mark_read
  map-unread-mark_read [] = refl
  map-unread-mark_read (it ∷ items) = ground (arith, map-unread-mark_read items)

module _ {N : Type 0} (stamp : ℕ → Stamp N) where
  unfoldable pub push_all : ℕ → List Notice → List (NotificationItem N) → List (NotificationItem N)
  push_all k [] items = items
  push_all k (n ∷ ns) items = push_all (k + 1) ns (push_notification (stamp k) n items)

  unfoldable pub step : Event N → Bell N → Bell N
  step (status_changed s) b =
      let notices = notices_of (status_changed s) b in
      record b {
        notifications = push_all b.calls notices b.notifications;
        prev_ws_status = s;
        calls = b.calls + length notices;
      }
  step (nodes_changed nodes) b =
      let notices = notices_of (nodes_changed nodes) b in
      record b {
        notifications = push_all b.calls notices b.notifications;
        nodes_initialized = true;
        prev_nodes = nodes;
        calls = b.calls + length notices;
      }
  step toggled b = record b {
    notifications_open = not b.notifications_open;
    notifications = if b.notifications_open then b.notifications else mark_read b.notifications;
  }
  step closed_list b = record b { notifications_open = false }
  step cleared b = record b { notifications = [] }

  pub run : Bell N → List (Event N) → Bell N
  run b [] = b
  run b (e ∷ es) = run (step e b) es

  -- The page after its first effects.
  unfoldable pub opening : WsStatus → List (NodeMeta N) → Bell N
  opening s nodes = record {
    notifications = push_all 0 (online ∷ []) [];
    notifications_open = false;
    nodes_initialized = true;
    prev_ws_status = s;
    prev_nodes = nodes;
    calls = 1;
  }

  -- All that was announced since the list was last cleared, newest first and unread, with no bound.
  pub log_all : ℕ → List Notice → List (NotificationItem N) → List (NotificationItem N)
  log_all k [] log = log
  log_all k (n ∷ ns) log = log_all (k + 1) ns (item (stamp k) n ∷ log)

  abbrev pub log_step : Event N → Bell N → List (NotificationItem N) → List (NotificationItem N)
  log_step cleared b log = []
  log_step e b log = log_all b.calls (notices_of e b) log

  pub log_from : Bell N → List (NotificationItem N) → List (Event N) → List (NotificationItem N)
  unfolding log_all
  log_from b log [] = log
  log_from b log (e ∷ es) = log_from (step e b) (log_step e b log) es

  -- The list is the newest sixty of the log, but for what has been read.
  abbrev pub Shows : List (NotificationItem N) → List (NotificationItem N) → Type 0
  Shows items log = map unread items ≡ take 60 log

  push-Shows :
      (k : ℕ) (n : Notice) (items log : List (NotificationItem N))
      → Shows items log
      → Shows (push_notification (stamp k) n items) (item (stamp k) n ∷ log)
  unfolding push_notification
  push-Shows k n items log h =
      ap (◌∷◌ (item (stamp k) n)) (map-take unread 59 items ∙ ap (take 59) h ∙ take-take-suc 59 log)

  push_all-Shows :
      (k : ℕ) (ns : List Notice) (items log : List (NotificationItem N))
      → Shows items log
      → Shows (push_all k ns items) (log_all k ns log)
  unfolding push_all log_all
  push_all-Shows k [] items log h = h
  push_all-Shows k (n ∷ ns) items log h =
      push_all-Shows (k + 1) ns (push_notification (stamp k) n items) (item (stamp k) n ∷ log)
        (push-Shows k n items log h)

  mark_read-Shows :
      (items log : List (NotificationItem N)) → Shows items log → Shows (mark_read items) log
  mark_read-Shows items log h = rw (map-unread-mark_read items) h

  step-Shows :
      (e : Event N) (b : Bell N) (log : List (NotificationItem N))
      → Shows b.notifications log
      → Shows (step e b).notifications (log_step e b log)
  unfolding step log_all notices_of
  step-Shows (status_changed s) b log h = push_all-Shows b.calls _ b.notifications log h
  step-Shows (nodes_changed nodes) b log h = push_all-Shows b.calls _ b.notifications log h
  step-Shows toggled b log h = ground (arith, mark_read-Shows b.notifications log h)
  step-Shows closed_list b log h = h
  step-Shows cleared b log h = refl

  run-Shows :
      (b : Bell N) (log : List (NotificationItem N)) (es : List (Event N))
      → Shows b.notifications log
      → Shows (run b es).notifications (log_from b log es)
  unfolding run log_from
  run-Shows b log [] h = h
  run-Shows b log (e ∷ es) h = run-Shows (step e b) (log_step e b log) es (step-Shows e b log h)

  -- After any events from the opening of the page, whatever was read or cleared meanwhile, the list
  -- holds the newest sixty of all that was announced since it was last cleared, newest first.
  pub run-opening-Shows :
      (s : WsStatus) (nodes : List (NodeMeta N)) (es : List (Event N))
      → Shows
          (run (opening s nodes) es).notifications
          (log_from (opening s nodes) (log_all 0 (online ∷ []) []) es)
  unfolding opening
  run-opening-Shows s nodes es =
      run-Shows (opening s nodes) _ es (push_all-Shows 0 (online ∷ []) [] [] refl)
