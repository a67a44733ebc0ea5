-- ===== src/Failover/Examples.antt =====
-- A watch that finds the new leader at its second poll, at its last, and never.
use vault_vk.Common.{ℕ, zero, suc, ◌≡◌, refl, true, false, List, [], ◌∷◌, none, some, arith}
use vault_vk.Text.{codes}
use vault_vk.Store.Defs.{NodeMeta}
use vault_vk.Failover.Defs.{
  Failover, log_elected, log_timeout, new_leader, begin_kill, stopped, after_kill, answered,
}
use vault_vk.Failover.Page as Pages
use vault_vk.Failover.Page.{Page, killing, clicked, replied, Reach, here, next}
use vault_vk.Failover.Rounds.{Poll, rounds}
use vault_vk.Failover.Whole.{verdict, fresh-verdict, fresh-ends}

abbrev leader : NodeMeta ℕ
leader = record {
  node_id = 2;
  host = codes "h";
  port = 7379;
  healthy = true;
  is_leader = true;
  ops_set = 0;
  ops_get = 0;
  lag_ms = 0;
  latency_us = 0;
  key_count = 0;
}

abbrev fresh : Failover ℕ
fresh = record {
  events = [];
  watch = record { prev_leader = some 1; attempts = 0; polling = true; in_flight = 0 };
}

abbrev elected : Poll ℕ
elected = (7, some (leader ∷ []))

abbrev nothing : Poll ℕ
nothing = (5, none)

finds : new_leader (some 1) elected.1 ≡ some 2
unfolding new_leader
finds = refl

misses : new_leader (some 1) nothing.1 ≡ none
unfolding new_leader
misses = refl

-- A number of polls that find nothing, and then the rest.
abbrev misses_then : ℕ → List (Poll ℕ) → List (Poll ℕ)
misses_then zero ps = ps
misses_then (suc n) ps = nothing ∷ misses_then n ps

-- The 21st poll finds the leader.
elected_and_timed_out :
    verdict (some 1) 20 (misses_then 20 (elected ∷ [])) [] ≡ log_timeout 7 (log_elected 7 2 [])
unfolding verdict new_leader
elected_and_timed_out = refl

fresh-verdict_example :
    (rounds fresh (misses_then 20 (elected ∷ []))).events
    ≡ verdict (some 1) 20 (misses_then 20 (elected ∷ [])) []
fresh-verdict_example = fresh-verdict fresh (misses_then 20 (elected ∷ [])) (refl, refl, refl)

fresh-ends_example : (rounds fresh (misses_then 21 [])).watch.polling ≡ false
fresh-ends_example = fresh-ends fresh (misses_then 21 []) (refl, refl, refl) (omega arith)

-- The leader is killed: the call waits, and then its watch runs.
abbrev asked : Page ℕ
asked = record (Pages.opening 0) {
  events = begin_kill 1 2 (Pages.opening 0).events;
  calls = killing 2 (leader ∷ []) ∷ [];
}

abbrev watching : Page ℕ
watching = record asked {
  events = stopped 4 2 asked.events;
  calls = [];
  watches = record { prev_leader = some 2; attempts = 0; polling = true; in_flight = 0 } ∷ [];
}

watching_reached : Reach 0 watching
unfolding Pages.step after_kill Pages.opening
watching_reached =
    next (replied 4 0 (answered true true none))
      (next {q = asked} (clicked 1 (killing 2 (leader ∷ []))) here refl) refl
