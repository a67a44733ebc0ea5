-- ===== src/Feed/Invariant.antt =====
-- What holds of the connection in every state that the browser can lead to.
use vault_vk.Feed.Defs.{mount, Reach, here, next}
use vault_vk.Common.{refl, inl, ◌≡◌, ◌⊎◌, true, false, not, none, some, arith}
use vault_vk.Numbers.Defs.{Arith}
use vault_vk.Store.Defs.{
  NodeMeta, WsStatus, connecting, opened, closed, set_nodes, push_metrics, set_status,
}
use vault_vk.Metrics.Snapshot.{Snapshot}
use vault_vk.Metrics.Consume.{Console, consume_snapshot}
use vault_vk.Feed.Defs.{
  Socket, absent, dialling, up, closing, gone, Feed, Event, opens, fails, closes, message, fetched,
  reconnect_fires, poll_fires, unmounts, is_live, is_up, is_dialling, step,
}

-- The status that the console shows for a socket; while the socket closes it may still be the old one.
abbrev pub Shows : Socket → WsStatus → Type 0
Shows absent s = ⊥
Shows dialling s = s ≡ connecting
Shows up s = s ≡ opened
Shows closing s = (s ≡ connecting) ⊎ (s ≡ opened)
Shows gone s = s ≡ closed

-- While the hook is mounted, exactly one of two things will carry it on: a socket on which events
-- still come, or the reconnect timer; the poll timer runs; and the status shown is the socket's.
-- Once it is disposed no timer is pending and no socket is open or being opened.
abbrev pub Mounted : {N : Type 0} → Feed N → Type 0
Mounted f =
    (f.reconnect_armed ≡ not (is_live f.socket))
    × (f.poll_armed ≡ true)
    × Shows f.socket f.console.store.ws_status

abbrev pub Disposed : {N : Type 0} → Feed N → Type 0
Disposed f =
    (f.reconnect_armed ≡ false)
    × (f.poll_armed ≡ false)
    × (is_up f.socket ≡ false)
    × (is_dialling f.socket ≡ false)

abbrev pub IsSound : {N : Type 0} → Feed N → Type 0
IsSound f = ((f.disposed ≡ false) × Mounted f) ⊎ ((f.disposed ≡ true) × Disposed f)

module _ (F : Arith) where
  open F use {Num}

  pub ws_status-consume_snapshot :
      (now : Num) (d : Snapshot (NodeMeta Num) Num) (c : Console Num)
      → (consume_snapshot F now d c).store.ws_status ≡ c.store.ws_status
  unfolding consume_snapshot set_nodes push_metrics
  ws_status-consume_snapshot now d c = ground arith

  pub step-IsSound :
      (now : Num) (e : Event Num) (f : Feed Num) {g : Feed Num}
      → IsSound f
      → step F now e f ≡ some g
      → IsSound g
  unfolding step set_status
  step-IsSound now opens f v h = ground arith
  step-IsSound now fails f v h = ground arith
  step-IsSound now closes f v h = ground arith
  step-IsSound now (message none) f v h = ground arith
  step-IsSound now (message (some d)) f v h =
      ground (arith, ws_status-consume_snapshot now d f.console)
  step-IsSound now (fetched none) f v h = ground arith
  step-IsSound now (fetched (some d)) f v h =
      ground (arith, ws_status-consume_snapshot now d f.console)
  step-IsSound now reconnect_fires f v h = ground arith
  step-IsSound now poll_fires f v h = ground arith
  step-IsSound now unmounts f v h = ground arith

  pub mount-IsSound : (c : Console Num) → IsSound (mount c)
  unfolding mount set_status
  mount-IsSound c = inl (refl, (refl, refl, refl))

  pub Reach-IsSound : {f g : Feed Num} → IsSound f → Reach F f g → IsSound g
  Reach-IsSound v here = v
  Reach-IsSound v (next {g} {h} now e r s) = step-IsSound now e g (Reach-IsSound v r) s

  -- In every state that the browser can lead to from the mounted hook: while the hook is mounted,
  -- the reconnect timer is pending exactly when no event can come from the socket any more, the poll
  -- timer runs, and the status shown fits the socket; once it is disposed no timer is pending and the
  -- socket is neither open nor being opened.
  pub mount-Reach-IsSound : (c : Console Num) {g : Feed Num} → Reach F (mount c) g → IsSound g
  mount-Reach-IsSound c r = Reach-IsSound (mount-IsSound c) r
