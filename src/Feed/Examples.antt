-- ===== src/Feed/Examples.antt =====
-- A connection that opens and is lost, and a page that goes away.
use vault_vk.Common.{refl, true, false, [], none}
use vault_vk.Numbers.Scaled.{ℤ, pos, scaled}
use vault_vk.Store.Defs.{connecting, closed, set_status}
use vault_vk.Metrics.Consume.{Console}
use vault_vk.Feed.Defs.{
  Feed, dialling, gone, closes, unmounts, fetched, mount, step, Reach, here, next, connect, dispose,
  on_close,
}
use vault_vk.Feed.Invariant.{IsSound, mount-Reach-IsSound}
use vault_vk.Feed.Recovery.{IsOver, Disposed-IsOver}

abbrev console : Console ℤ
console = record {
  store = record { nodes = []; history = []; forced_down_node_ids = []; ws_status = connecting };
  previous = none;
}

abbrev mounted : Feed ℤ
mounted = record {
  disposed = false;
  socket = dialling;
  reconnect_armed = false;
  poll_armed = true;
  in_flight = 1;
  console = console;
}

-- The socket was refused.
abbrev lost : Feed ℤ
lost = record mounted {
  socket = gone;
  reconnect_armed = true;
  console = record console { store = record console.store { ws_status = closed } };
}

abbrev left : Feed ℤ
left = record lost { disposed = true; reconnect_armed = false; poll_armed = false }

lost_reached : Reach scaled (mount console) lost
unfolding mount connect step set_status on_close
lost_reached = next (pos 0) closes here refl

left_reached : Reach scaled (mount console) left
unfolding step dispose
left_reached = next (pos 0) unmounts lost_reached refl

-- The first poll comes back to the page that has gone.
abbrev quiet : Feed ℤ
quiet = record left { in_flight = 0 }

quiet_reached : Reach scaled left quiet
unfolding step
quiet_reached = next (pos 0) (fetched none) here refl

mount-Reach-IsSound_example : IsSound lost
mount-Reach-IsSound_example = mount-Reach-IsSound scaled console lost_reached

Disposed-IsOver_example : IsOver scaled left quiet
Disposed-IsOver_example = Disposed-IsOver scaled console left_reached refl quiet_reached
