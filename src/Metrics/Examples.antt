-- ===== src/Metrics/Examples.antt =====
-- The hooks on one snapshot, with the numbers of Numbers/Scaled.antt.
use vault_vk.Common.{◌≡◌, refl, true, false, List, [], ◌∷◌, none, some, arith}
use vault_vk.Text.{codes}
use vault_vk.Numbers.Scaled.{ℤ, pos, scaled, scaled-Laws}
use vault_vk.Store.Defs.{NodeMeta, connecting}
use vault_vk.Metrics.Snapshot.{
  Snapshot, estimate, elapsed, Totals, base_ms, sum_latency, totals, totals_from,
}
use vault_vk.Metrics.Consume.{Console, derived, consume_snapshot}
use vault_vk.Metrics.Ingest.{ClusterNode, Pages, ingest}
use vault_vk.Metrics.Agreement.{plain, Agree, ingest-Agree}
use vault_vk.Metrics.Rates.{derived_bounds}

abbrev leader : NodeMeta ℤ
leader = record {
  node_id = 1;
  host = codes "a";
  port = 7379;
  healthy = true;
  is_leader = true;
  ops_set = 9;
  ops_get = 30;
  lag_ms = pos 0;
  latency_us = pos 800000;
  key_count = 3;
}

abbrev fallen : NodeMeta ℤ
fallen = record leader { node_id = 2; healthy = false; is_leader = false; ops_set = 100 }

abbrev nodes : List (NodeMeta ℤ)
nodes = leader ∷ fallen ∷ []

abbrev seen : NodeMeta ℤ → ClusterNode ℤ
seen n = record { meta = n; last_seen = none; wal_seq = some 4 }

abbrev snapshot : {M : Type 0} → List M → Snapshot M ℤ
snapshot ns = record {
  nodes = some ns;
  ts = some (pos 5000);
  set_ops_per_sec = none;
  get_ops_per_sec = none;
  set_p50_ms = none;
  set_p99_ms = none;
  get_p50_ms = none;
  get_p99_ms = none;
}

abbrev before : Totals ℤ
before = record { ts = pos 3000; set = 3; get = 40 }

abbrev after : Totals ℤ
after = record { ts = pos 5000; set = 9; get = 30 }

abbrev console : Console ℤ
console = record {
  store = record { nodes = []; history = []; forced_down_node_ids = []; ws_status = connecting };
  previous = some before;
}

abbrev pages : Pages ℤ
pages = record {
  cluster = record { nodes = []; ws_status = connecting; last_updated = none };
  metrics = record { history = [] };
  prev_totals = some before;
}

totals_of_healthy : totals (pos 5000) nodes ≡ after
unfolding totals totals_from
totals_of_healthy = refl

-- Six writes in two seconds; fewer reads than before.
write_rate : (derived scaled before after nodes).set_ops_per_sec ≡ pos 3000
unfolding derived estimate elapsed base_ms sum_latency
write_rate = refl

read_rate : (derived scaled before after nodes).get_ops_per_sec ≡ pos 0
unfolding derived estimate elapsed base_ms sum_latency
read_rate = refl

ingest-Agree_example :
    Agree ℤ
      (consume_snapshot scaled
        (pos 9000)
        (plain (snapshot (seen leader ∷ seen fallen ∷ [])))
        console)
      (ingest scaled (pos 9000) (pos 9000000) (snapshot (seen leader ∷ seen fallen ∷ [])) pages)
ingest-Agree_example =
    ingest-Agree scaled scaled-Laws (pos 9000) (pos 9000000)
      (snapshot (seen leader ∷ seen fallen ∷ [])) console pages (omega arith)
      (record { previous = refl; history = refl })

derived_bounds_example :
    let pt = derived scaled before after nodes in
    scaled.le (scaled.nat 0) pt.set_ops_per_sec
    × scaled.le (scaled.nat 0) pt.get_ops_per_sec
    × scaled.le (scaled.dec 1 2) pt.set_p50_ms
    × scaled.le (scaled.dec 2 2) pt.set_p99_ms
    × scaled.le pt.set_p50_ms pt.set_p99_ms
    × scaled.le (scaled.dec 1 2) pt.get_p50_ms
    × scaled.le (scaled.dec 2 2) pt.get_p99_ms
    × scaled.le pt.get_p50_ms pt.get_p99_ms
unfolding base_ms sum_latency
derived_bounds_example =
    derived_bounds scaled scaled-Laws before after nodes (omega arith) (omega arith)
