-- ===== src/Failover/Bounds.antt =====
-- What the failover page keeps, however many nodes are killed and however its calls overlap.
use mathlib.Core.Option.{some-injective}
use vault_vk.Common.{
  Bool-cases, ltb, ◌+◌, if◌then◌else◌, ℕ, zero, suc, ◌≤◌, ◌≡◌, refl, subst, ◌⊎◌, inl, inr, true,
  false, List, [], ◌∷◌, Option, none, some, get_elem?, arith, length, length-take-le, take, All,
  All-append, All-get_elem?,
}
use vault_vk.Store.Defs.{NodeMeta}
use vault_vk.Failover.Defs as Defs
use vault_vk.Failover.Defs.{
  EventRow, Reply, threw, answered, Watch, Failover, log, begin_kill, after_kill, begin_restart,
  after_restart, tick, polled, found, counted, landed, on_polled, new_leader,
}
use vault_vk.Failover.Limit.{IsLimited, step-IsLimited}
use vault_vk.Failover.Page.{
  Call, killing, restarting, Page, Event, clicked, replied, watched, replace_at, with_watch, begun,
  ended, settled, moved, driven, opening, step, Reach, here, next,
}

-- A watch that has ended, or of which at most twenty polls have come back.
abbrev pub IsWatchLimited : Watch → Type 0
IsWatchLimited w = (w.polling ≡ false) ⊎ (w.attempts ≤ 20)

All-replace_at :
    (n : ℕ) (w : Watch) (ws : List Watch)
    → IsWatchLimited w
    → All IsWatchLimited ws
    → All IsWatchLimited (replace_at n w ws)
All-replace_at n w [] h k = tt
All-replace_at zero w (x ∷ xs) h k = (h, k.1)
All-replace_at (suc n) w (x ∷ xs) h k = (k.0, All-replace_at n w xs h k.1)

with_watch-All :
    (o : Option Watch) (ws : List Watch)
    → All IsWatchLimited ws
    → All IsWatchLimited (with_watch o [])
    → All IsWatchLimited (with_watch o ws)
with_watch-All none ws h k = h
with_watch-All (some w) ws h k = All-append IsWatchLimited ws (w ∷ []) h k

module _ {N : Type 0} where
  -- There is an entry, and there are at most eighty.
  abbrev pub IsShort : List (EventRow N) → Type 0
  IsShort events = (1 ≤ length events) × (length events ≤ 80)

  -- Of any row in front of the first 79.
  pushed :
      (events : List (EventRow N))
      → (1 ≤ suc (length (take 79 events))) × (suc (length (take 79 events)) ≤ 80)
  pushed events = (omega arith, omega (arith, length-take-le 79 events))

  begun-IsShort :
      (ts : N) (call : Call N) (events : List (EventRow N)) → IsShort (begun ts call events)
  unfolding begin_kill begin_restart log
  begun-IsShort ts (killing id nodes) events = pushed events
  begun-IsShort ts (restarting id) events = pushed events

  abbrev IsEnd : List (EventRow N) × Option Watch → Type 0
  IsEnd e = IsShort e.0 × All IsWatchLimited (with_watch e.1 [])

  after_kill-IsEnd :
      (ts : N) (id : ℕ) (nodes : List (NodeMeta N)) (reply : Reply) (events : List (EventRow N))
      → IsEnd (after_kill ts id nodes reply events)
  unfolding after_kill log
  after_kill-IsEnd ts id nodes (threw message) events = (pushed events, tt)
  after_kill-IsEnd ts id nodes (answered true true reason) events =
      (pushed events, (inr (omega arith), tt))
  after_kill-IsEnd ts id nodes (answered true false reason) events = (pushed events, tt)
  after_kill-IsEnd ts id nodes (answered false data_ok reason) events = (pushed events, tt)

  after_restart-IsShort :
      (ts : N) (id : ℕ) (reply : Reply) (events : List (EventRow N))
      → IsShort (after_restart ts id reply events)
  unfolding after_restart log
  after_restart-IsShort ts id (threw message) events = pushed events
  after_restart-IsShort ts id (answered true true reason) events = pushed events
  after_restart-IsShort ts id (answered true false reason) events = pushed events
  after_restart-IsShort ts id (answered false data_ok reason) events = pushed events

  ended-IsEnd :
      (ts : N) (reply : Reply) (call : Call N) (events : List (EventRow N))
      → IsEnd (ended ts reply call events)
  ended-IsEnd ts reply (killing id nodes) events = after_kill-IsEnd ts id nodes reply events
  ended-IsEnd ts reply (restarting id) events = (after_restart-IsShort ts id reply events, tt)

  found-IsShort :
      (ts : N) (o : Option ℕ) (f : Failover N) → IsShort f.events → IsShort (found ts o f).events
  unfolding log
  found-IsShort ts none f h = h
  found-IsShort ts (some id) f h = pushed f.events

  counted-IsShort : (ts : N) (f : Failover N) → IsShort f.events → IsShort (counted ts f).events
  unfolding log
  counted-IsShort ts f h = elim (Bool-cases (ltb 20 (f.watch.attempts + 1))) [
    | inl e ↦ rw (e, if◌then◌else◌) (pushed f.events)
    | inr e ↦ rw (e, if◌then◌else◌) h
  ]

  landed-IsShort :
      (n : ℕ) (ts : N) (reply : Option (List (NodeMeta N))) (f : Failover N) {g : Failover N}
      → IsShort f.events
      → landed n ts reply f ≡ some g
      → IsShort g.events
  unfolding on_polled
  landed-IsShort zero ts reply f v h = absurd (ground arith)
  landed-IsShort (suc n) ts reply f v h =
      subst (λ g. IsShort g.events) (some-injective _ _ h)
        (counted-IsShort ts
          (found ts (new_leader f.watch.prev_leader reply)
            (record f { watch = record f.watch { in_flight = n } }))
          (found-IsShort ts (new_leader f.watch.prev_leader reply)
            (record f { watch = record f.watch { in_flight = n } }) v))

  watch_step-IsShort :
      (e : Defs.Event N) (f : Failover N) {g : Failover N}
      → IsShort f.events
      → Defs.step e f ≡ some g
      → IsShort g.events
  unfolding Defs.step
  watch_step-IsShort tick f v h = ground arith
  watch_step-IsShort (polled ts reply) f v h = landed-IsShort f.watch.in_flight ts reply f v h

  abbrev pub IsCapped : Page N → Type 0
  IsCapped p = IsShort p.events × All IsWatchLimited p.watches

  settled-IsCapped :
      (ts : N) (place : ℕ) (reply : Reply) (p : Page N) (o : Option (Call N)) {q : Page N}
      → IsCapped p
      → settled ts place reply p o ≡ some q
      → IsCapped q
  settled-IsCapped ts place reply p none v h = absurd (ground arith)
  settled-IsCapped ts place reply p (some call) v h =
      let (short, fresh) = ended-IsEnd ts reply call p.events in
      subst IsCapped (some-injective _ _ h)
        (short, with_watch-All (ended ts reply call p.events).1 p.watches v.1 fresh)

  moved-IsCapped :
      (place : ℕ) (p : Page N) (o : Option (Failover N)) {q : Page N}
      → All IsWatchLimited p.watches
      → ((f : Failover N) → o ≡ some f → IsShort f.events × IsLimited f)
      → moved place p o ≡ some q
      → IsCapped q
  moved-IsCapped place p none v k h = absurd (ground arith)
  moved-IsCapped place p (some f) v k h =
      let (short, limited) = k f refl in
      subst IsCapped (some-injective _ _ h)
        (short, All-replace_at place f.watch p.watches limited v)

  driven-IsCapped :
      (place : ℕ) (e : Defs.Event N) (p : Page N) (o : Option Watch) {q : Page N}
      → IsCapped p
      → ((w : Watch) → o ≡ some w → IsWatchLimited w)
      → driven place e p o ≡ some q
      → IsCapped q
  driven-IsCapped place e p none v k h = absurd (ground arith)
  driven-IsCapped place e p (some w) v k h =
      let f : Failover N = record { events = p.events; watch = w } in
      moved-IsCapped place p (Defs.step e f) v.1
        (λ g s. (watch_step-IsShort e f v.0 s, step-IsLimited e f (k w refl) s)) h

  step-IsCapped :
      (e : Event N) (p : Page N) {q : Page N} → IsCapped p → step e p ≡ some q → IsCapped q
  unfolding step
  step-IsCapped (clicked ts call) p v h =
      subst IsCapped (some-injective _ _ h) (begun-IsShort ts call p.events, v.1)
  step-IsCapped (replied ts place reply) p v h =
      settled-IsCapped ts place reply p (get_elem? p.calls place) v h
  step-IsCapped (watched place e) p v h =
      driven-IsCapped place e p (get_elem? p.watches place) v
        (λ w k. All-get_elem? IsWatchLimited place p.watches v.1 k) h

  -- However many nodes are killed and restarted on the page, and however its calls and the polls of all
  -- its watches overlap: the log holds between one and eighty entries, and of each watch whose interval
  -- runs at most twenty polls have come back.
  pub Reach-IsCapped : (ts : N) {p : Page N} → Reach ts p → IsCapped p
  unfolding opening
  Reach-IsCapped ts here = ((omega arith, omega arith), tt)
  Reach-IsCapped ts (next {p} e r h) = step-IsCapped e p (Reach-IsCapped ts r) h
