-- ===== src/PagesFeed/Examples.antt =====
-- The hook of the pages on a connection that is refused.
use vault_vk.Common.{refl, false, true, [], none}
use vault_vk.Numbers.Scaled.{ℤ, pos, scaled}
use vault_vk.Store.Defs.{connecting, closed}
use vault_vk.Metrics.Consume.{Console}
use vault_vk.Metrics.Ingest.{Pages, set_cluster_status}
use vault_vk.Feed.Defs.{Feed, gone}
use vault_vk.Feed.Defs
use vault_vk.PagesFeed.Defs.{PagesFeed, closes, mount, connect, on_close, step, Reach, here, next}
use vault_vk.PagesFeed.Matching.{Matches}
use vault_vk.PagesFeed.Recovery.{Links, mount-Reach-Links}
use vault_vk.PagesFeed.Sound.{mount-Reach-Matches}

abbrev pages : Pages ℤ
pages = record {
  cluster = record { nodes = []; ws_status = connecting; last_updated = none };
  metrics = record { history = [] };
  prev_totals = none;
}

abbrev console : Console ℤ
console = record {
  store = record { nodes = []; history = []; forced_down_node_ids = []; ws_status = connecting };
  previous = none;
}

abbrev lost : PagesFeed ℤ
lost = record {
  disposed = false;
  socket = gone;
  ws_open = false;
  reconnect_armed = true;
  poll_armed = true;
  in_flight = 1;
  hellos = 0;
  pages = record pages { cluster = record { nodes = []; ws_status = closed; last_updated = none } };
}

lost_reached : Reach scaled (mount pages) lost
unfolding mount connect step set_cluster_status on_close
lost_reached = next (pos 0) (pos 0) closes here refl

mount-Reach-Matches_example :
    (f : Feed ℤ) × Defs.Reach scaled (Defs.mount console) f × Matches f lost
mount-Reach-Matches_example = mount-Reach-Matches scaled console pages lost_reached

mount-Reach-Links_example : Links scaled lost
mount-Reach-Links_example = mount-Reach-Links scaled pages lost_reached refl
