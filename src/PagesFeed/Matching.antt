-- ===== src/PagesFeed/Matching.antt =====
-- The hook of the pages step by step beside that of hooks.ts.
use vault_vk.Common.{◌≤◌, ◌-◌, ◌≡◌, Bool, true, false, none, some, arith}
use vault_vk.Numbers.Defs.{Arith}
use vault_vk.Store.Defs.{set_status}
use vault_vk.Metrics.Snapshot.{Snapshot}
use vault_vk.Metrics.Ingest.{ClusterNode, Pages, set_cluster_status, set_cluster_nodes, ingest}
use vault_vk.Metrics.Agreement.{plain}
use vault_vk.Feed.Defs.{
  Feed, Socket, absent, dialling, up, closing, gone, is_live, is_up, is_dialling, close_socket,
}
use vault_vk.Feed.Defs
use vault_vk.Feed.Invariant.{ws_status-consume_snapshot}
use vault_vk.PagesFeed.Defs.{
  PagesFeed, Event, opens, fails, closes, message, fetched, reconnect_fires, poll_fires, unmounts,
  step,
}

-- What the note of the pages' hook may be for a socket: while it closes, either.
abbrev pub Notes : Socket → Bool → Type 0
Notes absent b = b ≡ false
Notes dialling b = b ≡ false
Notes up b = b ≡ true
Notes closing b = Unit
Notes gone b = b ≡ false

-- The same connection: the hook of the pages may have fewer polls out.
pub record Matches {N : Type 0} (f : Feed N) (p : PagesFeed N) : Type 0 where
  pub disposed : f.disposed ≡ p.disposed
  pub socket : f.socket ≡ p.socket
  pub reconnect_armed : f.reconnect_armed ≡ p.reconnect_armed
  pub poll_armed : f.poll_armed ≡ p.poll_armed
  pub status : f.console.store.ws_status ≡ p.pages.cluster.ws_status
  pub fewer : p.in_flight ≤ f.in_flight
  pub note : Notes p.socket p.ws_open
  pub over : p.disposed ≡ true → is_dialling p.socket ≡ false

-- The event of hooks.ts for one of the pages.
abbrev pub plain_event : {N : Type 0} → Event N → Defs.Event N
plain_event opens = Defs.opens
plain_event fails = Defs.fails
plain_event closes = Defs.closes
plain_event (message none) = Defs.message none
plain_event (message (some d)) = Defs.message (some (plain d))
plain_event (fetched none) = Defs.fetched none
plain_event (fetched (some d)) = Defs.fetched (some (plain d))
plain_event reconnect_fires = Defs.reconnect_fires
plain_event poll_fires = Defs.poll_fires
plain_event unmounts = Defs.unmounts

module _ (F : Arith) where
  open F use {Num}

  ws_status-ingest :
      (now now_ms : Num) (d : Snapshot (ClusterNode Num) Num) (p : Pages Num)
      → (ingest F now now_ms d p).cluster.ws_status ≡ p.cluster.ws_status
  unfolding ingest set_cluster_nodes
  ws_status-ingest now now_ms d p = ground arith

  abbrev pub Follows : Num → Event Num → Feed Num → PagesFeed Num → Type 0
  Follows now e f p = (g : Feed Num) × (Defs.step F now (plain_event e) f ≡ some g) × Matches g p

  module _ (now now_ms : Num) (f : Feed Num) (p : PagesFeed Num) {q : PagesFeed Num}
      (v : Matches f p) where
    opens-Follows : step F now now_ms opens p ≡ some q → Follows now opens f q
    unfolding step Defs.step set_status set_cluster_status
    opens-Follows h = (
      Defs.on_open (record f { socket = up }),
      ground (arith, v.over, v.note, v.fewer),
      ground (arith, v.over, v.note, v.fewer),
    )

    fails-Follows : step F now now_ms fails p ≡ some q → Follows now fails f q
    unfolding step Defs.step set_status set_cluster_status
    fails-Follows h = (
      Defs.on_error f,
      ground (arith, v.over, v.note, v.fewer),
      ground (arith, v.over, v.note, v.fewer),
    )

    closes-Follows : step F now now_ms closes p ≡ some q → Follows now closes f q
    unfolding step Defs.step set_status set_cluster_status
    closes-Follows h = (
      Defs.on_close (record f { socket = gone }),
      ground (arith, v.over, v.note, v.fewer),
      ground (arith, v.over, v.note, v.fewer),
    )

    reconnect-Follows :
        step F now now_ms reconnect_fires p ≡ some q → Follows now reconnect_fires f q
    unfolding step Defs.step set_status set_cluster_status
    reconnect-Follows h = (
      Defs.connect (record f { reconnect_armed = false }),
      ground (arith, v.over, v.note, v.fewer),
      ground (arith, v.over, v.note, v.fewer),
    )

    poll-Follows : step F now now_ms poll_fires p ≡ some q → Follows now poll_fires f q
    unfolding step Defs.step set_status set_cluster_status
    poll-Follows h = (
      Defs.poll_tick f,
      ground (arith, v.over, v.note, v.fewer),
      ground (arith, v.over, v.note, v.fewer),
    )

    unmounts-Follows : step F now now_ms unmounts p ≡ some q → Follows now unmounts f q
    unfolding step Defs.step set_status set_cluster_status
    unmounts-Follows h = (
      Defs.dispose f,
      ground (arith, v.over, v.note, v.fewer),
      ground (arith, v.over, v.note, v.fewer),
    )

    ignored-Follows : step F now now_ms (message none) p ≡ some q → Follows now (message none) f q
    unfolding step Defs.step set_status set_cluster_status
    ignored-Follows h =
        (f, ground (arith, v.over, v.note, v.fewer), ground (arith, v.over, v.note, v.fewer))

    message-Follows :
        (d : Snapshot (ClusterNode Num) Num)
        → step F now now_ms (message (some d)) p ≡ some q
        → Follows now (message (some d)) f q
    unfolding step Defs.step set_status set_cluster_status
    message-Follows d h = (
      Defs.receive F now (some (plain d)) f,
      ground (arith, v.over, v.note, v.fewer),
      ground (
        arith,
        v.over,
        v.note,
        v.fewer,
        ws_status-consume_snapshot F now (plain d) f.console,
        ws_status-ingest now now_ms d p.pages,
      ),
    )

    lost-Follows : step F now now_ms (fetched none) p ≡ some q → Follows now (fetched none) f q
    unfolding step Defs.step set_status set_cluster_status
    lost-Follows h = (
      record f { in_flight = f.in_flight - 1 },
      ground (arith, v.over, v.note, v.fewer),
      ground (arith, v.over, v.note, v.fewer),
    )

    fetched-Follows :
        (d : Snapshot (ClusterNode Num) Num)
        → step F now now_ms (fetched (some d)) p ≡ some q
        → Follows now (fetched (some d)) f q
    unfolding step Defs.step set_status set_cluster_status
    fetched-Follows d h = (
      record (Defs.receive F now (some (plain d)) f) { in_flight = f.in_flight - 1 },
      ground (arith, v.over, v.note, v.fewer),
      ground (
        arith,
        v.over,
        v.note,
        v.fewer,
        ws_status-consume_snapshot F now (plain d) f.console,
        ws_status-ingest now now_ms d p.pages,
      ),
    )

  pub step-Follows :
      (now now_ms : Num) (e : Event Num) (f : Feed Num) (p : PagesFeed Num) {q : PagesFeed Num}
      → Matches f p
      → step F now now_ms e p ≡ some q
      → Follows now e f q
  step-Follows now now_ms opens f p v h = opens-Follows now now_ms f p v h
  step-Follows now now_ms fails f p v h = fails-Follows now now_ms f p v h
  step-Follows now now_ms closes f p v h = closes-Follows now now_ms f p v h
  step-Follows now now_ms (message none) f p v h = ignored-Follows now now_ms f p v h
  step-Follows now now_ms (message (some d)) f p v h = message-Follows now now_ms f p v d h
  step-Follows now now_ms (fetched none) f p v h = lost-Follows now now_ms f p v h
  step-Follows now now_ms (fetched (some d)) f p v h = fetched-Follows now now_ms f p v d h
  step-Follows now now_ms reconnect_fires f p v h = reconnect-Follows now now_ms f p v h
  step-Follows now now_ms poll_fires f p v h = poll-Follows now now_ms f p v h
  step-Follows now now_ms unmounts f p v h = unmounts-Follows now now_ms f p v h
