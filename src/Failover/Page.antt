-- ===== src/Failover/Page.antt =====
-- The failover page as a whole: calls of `killNode` and `restartNode` that overlap, and the watch of
-- each kill, all on one log.
use vault_vk.Common.{
  ℕ, zero, suc, ◌≡◌, List, [], ◌∷◌, ◌++◌, Option, none, some, get_elem?, remove_at,
}
use vault_vk.Text.{codes}
use vault_vk.Store.Defs.{NodeMeta}
use vault_vk.Failover.Defs as Defs
use vault_vk.Failover.Defs.{
  EventRow, Reply, Watch, Failover, begin_kill, after_kill, begin_restart, after_restart,
}

-- A call that waits for the gateway, with the nodes of the render in which a kill was asked for.
pub data Call (N : Type 0) : Type 0 where
  killing : (id : ℕ) → List (NodeMeta N) → Call N
  restarting : (id : ℕ) → Call N

pub record Page (N : Type 0) : Type 0 where
  pub events : List (EventRow N)
  pub calls : List (Call N)
  pub watches : List Watch

pub data Event (N : Type 0) : Type 0 where
  clicked : N → Call N → Event N
  -- The answer to the waiting call at this place, and an event of the watch at this place.
  replied : N → (place : ℕ) → Reply → Event N
  watched : (place : ℕ) → Defs.Event N → Event N

abbrev pub replace_at : ℕ → Watch → List Watch → List Watch
replace_at n w [] = []
replace_at zero w (x ∷ xs) = w ∷ xs
replace_at (suc n) w (x ∷ xs) = x ∷ replace_at n w xs

abbrev pub with_watch : Option Watch → List Watch → List Watch
with_watch none ws = ws
with_watch (some w) ws = ws ++ w ∷ []

module _ {N : Type 0} where
  unfoldable pub opening : N → Page N
  opening ts = record {
    events =
        record {
          ts = ts;
          msg = codes "Cluster ready. Kill a node to trigger failover.";
          color = codes "text-zinc-400";
        }
        ∷ [];
    calls = [];
    watches = [];
  }

  abbrev pub begun : N → Call N → List (EventRow N) → List (EventRow N)
  begun ts (killing id nodes) events = begin_kill ts id events
  begun ts (restarting id) events = begin_restart ts id events

  -- What follows the wait of a call: the log, and the watch that a kill begins.
  abbrev pub ended : N → Reply → Call N → List (EventRow N) → List (EventRow N) × Option Watch
  ended ts reply (killing id nodes) events = after_kill ts id nodes reply events
  ended ts reply (restarting id) events = (after_restart ts id reply events, none)

  abbrev pub settled : N → ℕ → Reply → Page N → Option (Call N) → Option (Page N)
  settled ts place reply p none = none
  settled ts place reply p (some call) =
      let (events, watch) = ended ts reply call p.events in
      some (record {
        events = events;
        calls = remove_at place p.calls;
        watches = with_watch watch p.watches;
      })

  abbrev pub moved : ℕ → Page N → Option (Failover N) → Option (Page N)
  moved place p none = none
  moved place p (some f) =
      some (record p { events = f.events; watches = replace_at place f.watch p.watches })

  -- A watch with the log that it shares.
  abbrev pub driven : ℕ → Defs.Event N → Page N → Option Watch → Option (Page N)
  driven place e p none = none
  driven place e p (some w) = moved place p (Defs.step e (record { events = p.events; watch = w }))

  -- None where the browser cannot raise the event.
  unfoldable pub step : Event N → Page N → Option (Page N)
  step (clicked ts call) p =
      some (record p { events = begun ts call p.events; calls = p.calls ++ call ∷ [] })
  step (replied ts place reply) p = settled ts place reply p (get_elem? p.calls place)
  step (watched place e) p = driven place e p (get_elem? p.watches place)

  pub data Reach (ts : N) : Page N → Type 0 where
    here : Reach ts (opening ts)
    next : {p q : Page N} (e : Event N) → Reach ts p → step e p ≡ some q → Reach ts q
