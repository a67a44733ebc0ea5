-- ===== src/PagesFeed/Defs.antt =====
-- State and handlers of `useClusterWS`, and the browser's events. An event that the browser cannot
-- raise in a state leads to none.
use vault_vk.Common.{
  ◌≡◌, ℕ, zero, suc, ◌+◌, Bool, true, false, not, Option, none, some, if◌then◌else◌,
}
use vault_vk.Numbers.Defs.{Arith}
use vault_vk.Store.Defs.{WsStatus, connecting, opened, closed}
use vault_vk.Metrics.Snapshot.{Snapshot}
use vault_vk.Metrics.Ingest.{ClusterNode, Pages, set_cluster_status, ingest}
use vault_vk.Feed.Defs.{
  Socket, absent, dialling, up, gone, is_live, is_up, is_dialling, close_socket,
}

pub record PagesFeed (N : Type 0) : Type 0 where
  pub disposed : Bool
  -- `ws.current`, and `wsOpenRef.current`, the hook's own note of whether it is open.
  pub socket : Socket
  pub ws_open : Bool
  -- Whether `reconnectTimer` and `pollTimer` are pending.
  pub reconnect_armed : Bool
  pub poll_armed : Bool
  -- Calls of `fetchClusterSnapshot` that wait for the gateway, and greetings that were sent.
  pub in_flight : ℕ
  pub hellos : ℕ
  pub pages : Pages N

-- Some data is a snapshot that parsed; none is a malformed message, a reply that is not ok, or an
-- exception.
pub data Event (N : Type 0) : Type 0 where
  opens fails closes : Event N
  message fetched : Option (Snapshot (ClusterNode N) N) → Event N
  reconnect_fires poll_fires unmounts : Event N

module _ {N : Type 0} where
  abbrev pub report : WsStatus → PagesFeed N → PagesFeed N
  report s f = record f {
    pages = record f.pages { cluster = set_cluster_status s f.pages.cluster };
  }

  unfoldable pub connect : PagesFeed N → PagesFeed N
  connect f =
      if f.disposed then f else record (report connecting f) { socket = dialling; ws_open = false }

  unfoldable pub on_open : PagesFeed N → PagesFeed N
  on_open f =
      if f.disposed then f else record (report opened f) { ws_open = true; hellos = f.hellos + 1 }

  unfoldable pub on_error : PagesFeed N → PagesFeed N
  on_error f = record f { socket = close_socket f.socket }

  unfoldable pub on_close : PagesFeed N → PagesFeed N
  on_close f =
      let shut : PagesFeed N = record f { ws_open = false } in
      if f.disposed then shut else record (report closed shut) { reconnect_armed = true }

  -- The interval's callback: it polls unless the note says that the socket is open.
  unfoldable pub poll_tick : PagesFeed N → PagesFeed N
  poll_tick f = if f.ws_open then f else record f { in_flight = f.in_flight + 1 }

  -- The effect's clean-up.
  unfoldable pub dispose : PagesFeed N → PagesFeed N
  dispose f = record f {
    disposed = true;
    reconnect_armed = false;
    poll_armed = false;
    socket = close_socket f.socket;
  }

  -- The effect: one poll, a connection, and the interval.
  unfoldable pub mount : Pages N → PagesFeed N
  unfolding connect
  mount pages =
      let fresh : PagesFeed N = record {
        disposed = false;
        socket = absent;
        ws_open = false;
        reconnect_armed = false;
        poll_armed = false;
        in_flight = 1;
        hellos = 0;
        pages = pages;
      } in
      record (connect fresh) { poll_armed = true }

  abbrev pub when : Bool → PagesFeed N → Option (PagesFeed N)
  when b f = if b then some f else none

module _ (F : Arith) where
  open F use {Num}

  -- A snapshot that came is taken in; all else is ignored.
  abbrev pub receive :
      Num → Num → Option (Snapshot (ClusterNode Num) Num) → PagesFeed Num → PagesFeed Num
  receive now now_ms none f = f
  receive now now_ms (some d) f = record f { pages = ingest F now now_ms d f.pages }

  abbrev pub landed : ℕ → PagesFeed Num → Option (PagesFeed Num)
  landed zero f = none
  landed (suc n) f = some (record f { in_flight = n })

  unfoldable pub step : Num → Num → Event Num → PagesFeed Num → Option (PagesFeed Num)
  unfolding connect on_open on_error on_close poll_tick dispose
  step now now_ms opens f = when (is_dialling f.socket) (on_open (record f { socket = up }))
  step now now_ms fails f = when (is_live f.socket) (on_error f)
  step now now_ms closes f = when (is_live f.socket) (on_close (record f { socket = gone }))
  step now now_ms (message d) f = when (is_up f.socket) (receive now now_ms d f)
  step now now_ms (fetched d) f = landed f.in_flight (receive now now_ms d f)
  step now now_ms reconnect_fires f =
      when f.reconnect_armed (connect (record f { reconnect_armed = false }))
  step now now_ms poll_fires f = when f.poll_armed (poll_tick f)
  step now now_ms unmounts f = when (not f.disposed) (dispose f)

  -- What the browser can lead to, with any clock.
  pub data Reach (f : PagesFeed Num) : PagesFeed Num → Type 0 where
    here : Reach f f
    next :
        {g h : PagesFeed Num} (now now_ms : Num) (e : Event Num)
        → Reach f g
        → step now now_ms e g ≡ some h
        → Reach f h
