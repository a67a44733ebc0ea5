-- ===== src/App/Examples.antt =====
-- The page at work: node 2 is killed, a snapshot calls it healthy, the page renders.
use vault_vk.Common.{All, ℕ, false, ◌≡◌, refl, true, List, [], ◌∷◌, none, some, map}
use vault_vk.Text.{codes}
use vault_vk.Numbers.Scaled.{ℤ, pos, scaled}
use vault_vk.Store.Defs.{NodeMeta, initial, down, set_nodes, apply_forced_down, set_status}
use vault_vk.Store.Actions.{kill, begin, begin_kill}
use vault_vk.Store.EventLoop as EventLoop
use vault_vk.Store.EventLoop.{run}
use vault_vk.Store.EventLoop.Invariant.{Inv}
use vault_vk.Store.EventLoop.Invariant as Loops
use vault_vk.Metrics.Snapshot.{Snapshot, direct_metrics, totals, totals_from}
use vault_vk.Metrics.Consume.{consume_snapshot}
use vault_vk.Feed.Defs as Feed
use vault_vk.Feed.Defs.{fetched, mount, connect}
use vault_vk.Notifications.Centre.{Stamp}
use vault_vk.App.Defs as Defs
use vault_vk.App.Defs.{
  App, Event, browser, clicked, rendered, loop_of, click, started, render, watch_nodes, Reach, here,
  next,
}
use vault_vk.Store.EventLoop.Sticks.{IsShownDown}
use vault_vk.App.Downed.{Later, at_once, more, Later-AreShownDown}
use vault_vk.App.Refines.{Reach-Leads}
use vault_vk.App.Connected.{Reconnects, Reach-Reconnects}
use vault_vk.App.CaughtUp.{IsCaughtUp, render-IsCaughtUp}

abbrev stamp : ℕ → Stamp ℤ
stamp k = record { id = codes "id"; ts = pos k }

abbrev one_node : List (NodeMeta ℤ)
one_node =
    record {
      node_id = 2;
      host = codes "h";
      port = 1;
      healthy = true;
      is_leader = true;
      ops_set = 0;
      ops_get = 0;
      lag_ms = pos 0;
      latency_us = pos 0;
      key_count = 0;
    }
    ∷ []

abbrev data_of : List (NodeMeta ℤ) → Snapshot (NodeMeta ℤ) ℤ
data_of nodes = record {
  nodes = some nodes;
  ts = some (pos 1);
  set_ops_per_sec = none;
  get_ops_per_sec = none;
  set_p50_ms = none;
  set_p99_ms = none;
  get_p50_ms = none;
  get_p99_ms = none;
}

abbrev killed : App ℤ
killed = click kill 2 (Defs.opening scaled stamp)

killed_reached : Reach scaled stamp killed
unfolding Defs.step
killed_reached = next (pos 0) (clicked kill 2) here refl

-- The first poll comes back.
abbrev after_poll : App ℤ
after_poll = Defs.new_nodes (record killed {
  feed = record killed.feed {
    in_flight = 0;
    console = consume_snapshot scaled (pos 0) (data_of one_node) killed.feed.console;
  };
})

after_poll_reached : Reach scaled stamp after_poll
unfolding Defs.step Feed.step click started Defs.opening mount connect
after_poll_reached = next (pos 0) (browser (fetched (some (data_of one_node)))) killed_reached refl

after_poll_masked : after_poll.feed.console.store.nodes ≡ map (down {N = ℤ}) one_node
unfolding click started Defs.opening mount connect EventLoop.step begin begin_kill consume_snapshot
    set_nodes apply_forced_down initial set_status direct_metrics totals totals_from
after_poll_masked = refl

Reach-Leads_example :
    (es : List (EventLoop.Event ℤ)) × (run (Loops.opening scaled.nat) es ≡ loop_of after_poll)
Reach-Leads_example = Reach-Leads scaled stamp after_poll_reached

render-IsCaughtUp_example : IsCaughtUp scaled stamp (render stamp after_poll)
render-IsCaughtUp_example = render-IsCaughtUp scaled stamp after_poll_reached

still_mounted : after_poll.feed.disposed ≡ false
unfolding click started Defs.opening mount connect
still_mounted = refl

Reach-Reconnects_example : Reconnects scaled stamp after_poll
Reach-Reconnects_example = Reach-Reconnects scaled stamp after_poll_reached still_mounted

-- The poll tells that the killed node is well.
still_down : Later scaled stamp 2 killed after_poll
unfolding Defs.step Feed.step click started Defs.opening mount connect
still_down = more (pos 0) (browser (fetched (some (data_of one_node)))) at_once tt refl

Later-AreShownDown_example : All (IsShownDown 2) after_poll.feed.console.store.nodes
Later-AreShownDown_example = Later-AreShownDown scaled stamp 2 here still_down
