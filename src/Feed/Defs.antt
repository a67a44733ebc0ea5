-- ===== src/Feed/Defs.antt =====
-- State and handlers of `useSimulatedMetrics`, and the browser's events. An event that the browser
-- cannot raise in a state leads to none.
use vault_vk.Common.{
  ◌≡◌, ℕ, zero, suc, ◌+◌, Bool, true, false, not, Option, none, some, if◌then◌else◌,
}
use vault_vk.Numbers.Defs.{Arith}
use vault_vk.Store.Defs.{NodeMeta, WsStatus, connecting, opened, closed, set_status}
use vault_vk.Metrics.Snapshot.{Snapshot}
use vault_vk.Metrics.Consume.{Console, consume_snapshot}

-- `wsRef.current` and its `readyState`.
pub data Socket : Type 0 where
  absent dialling up closing gone : Socket

pub record Feed (N : Type 0) : Type 0 where
  pub disposed : Bool
  pub socket : Socket
  -- Whether `reconnectTimer` and `pollTimer` are pending.
  pub reconnect_armed : Bool
  pub poll_armed : Bool
  -- Calls of `pollCluster` that wait for the gateway.
  pub in_flight : ℕ
  pub console : Console N

-- Some data is a snapshot that parsed; none is a malformed message, a reply that is not ok, or an
-- exception.
pub data Event (N : Type 0) : Type 0 where
  opens fails closes : Event N
  message fetched : Option (Snapshot (NodeMeta N) N) → Event N
  reconnect_fires poll_fires unmounts : Event N

abbrev pub is_up : Socket → Bool
is_up up = true
is_up s = false

-- A socket on which an event may still come.
abbrev pub is_live : Socket → Bool
is_live absent = false
is_live dialling = true
is_live up = true
is_live closing = true
is_live gone = false

abbrev pub is_dialling : Socket → Bool
is_dialling dialling = true
is_dialling s = false

-- `socket.close()`
abbrev pub close_socket : Socket → Socket
close_socket absent = absent
close_socket dialling = closing
close_socket up = closing
close_socket closing = closing
close_socket gone = gone

module _ {N : Type 0} where
  abbrev pub report : WsStatus → Feed N → Feed N
  report s f = record f { console = record f.console { store = set_status s f.console.store } }

  unfoldable pub connect : Feed N → Feed N
  connect f = if f.disposed then f else record (report connecting f) { socket = dialling }

  unfoldable pub on_open : Feed N → Feed N
  on_open f = report opened f

  unfoldable pub on_error : Feed N → Feed N
  on_error f = record f { socket = close_socket f.socket }

  unfoldable pub on_close : Feed N → Feed N
  on_close f = if f.disposed then f else record (report closed f) { reconnect_armed = true }

  -- The interval's callback: it polls unless the socket is open.
  unfoldable pub poll_tick : Feed N → Feed N
  poll_tick f = if is_up f.socket then f else record f { in_flight = f.in_flight + 1 }

  -- The effect's clean-up.
  unfoldable pub dispose : Feed N → Feed N
  dispose f = record f {
    disposed = true;
    reconnect_armed = false;
    poll_armed = false;
    socket = close_socket f.socket;
  }

  -- The effect: one poll, a connection, and the interval.
  unfoldable pub mount : Console N → Feed N
  unfolding connect
  mount console =
      let fresh : Feed N = record {
        disposed = false;
        socket = absent;
        reconnect_armed = false;
        poll_armed = false;
        in_flight = 1;
        console = console;
      } in
      record (connect fresh) { poll_armed = true }

  abbrev when : Bool → Feed N → Option (Feed N)
  when b f = if b then some f else none

module _ (F : Arith) where
  open F use {Num}

  -- A snapshot that came is consumed; all else is ignored.
  abbrev pub receive : Num → Option (Snapshot (NodeMeta Num) Num) → Feed Num → Feed Num
  receive now none f = f
  receive now (some d) f = record f { console = consume_snapshot F now d f.console }

  abbrev pub landed : ℕ → Feed Num → Option (Feed Num)
  landed zero f = none
  landed (suc n) f = some (record f { in_flight = n })

  unfoldable pub step : Num → Event Num → Feed Num → Option (Feed Num)
  unfolding connect on_open on_error on_close poll_tick dispose
  step now opens f = when (is_dialling f.socket) (on_open (record f { socket = up }))
  step now fails f = when (is_live f.socket) (on_error f)
  step now closes f = when (is_live f.socket) (on_close (record f { socket = gone }))
  step now (message d) f = when (is_up f.socket) (receive now d f)
  step now (fetched d) f = landed f.in_flight (receive now d f)
  step now reconnect_fires f =
      when f.reconnect_armed (connect (record f { reconnect_armed = false }))
  step now poll_fires f = when f.poll_armed (poll_tick f)
  step now unmounts f = when (not f.disposed) (dispose f)

  -- What the browser can lead to, with any clock.
  pub data Reach (f : Feed Num) : Feed Num → Type 0 where
    here : Reach f f
    next :
        {g h : Feed Num} (now : Num) (e : Event Num) → Reach f g → step now e g ≡ some h → Reach f h
