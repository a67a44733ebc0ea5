-- ===== src/App/Refines.antt =====
-- The store of `App` against the store alone: the feed's handlers and the operator's clicks as events
-- of the store's loop.
use mathlib.Core.Option.{some-injective}
use vault_vk.Common.{
  ℕ, ◌≡◌, refl, ap, sym, ◌∙◌, subst, inl, inr, List, [], ◌∷◌, ◌++◌, Option, none, some,
  Option-cases, arith, if◌then◌else◌, get_or_else,
}
use vault_vk.Numbers.Defs.{Arith}
use vault_vk.Store.Defs.{
  NodeMeta, MetricsPoint, WsStatus, connecting, opened, closed, ClusterState, initial, set_nodes,
  push_metrics, set_status,
}
use vault_vk.Store.Actions.{Reply}
use vault_vk.Store.EventLoop as EventLoop
use vault_vk.Store.EventLoop.{Pending, Loop, snapshot, sample, status, run}
use vault_vk.Store.EventLoop.Invariant.{Inv, opening, run-opening-Inv}
use vault_vk.Store.EventLoop.Sticks.{run-append}
use vault_vk.Metrics.Snapshot.{Snapshot, direct_metrics, totals}
use vault_vk.Metrics.Consume.{Console, derived, consume_snapshot}
use vault_vk.Feed.Defs as Feed
use vault_vk.Feed.Defs.{
  opens, fails, closes, message, fetched, reconnect_fires, poll_fires, unmounts, connect, on_open,
  on_error, on_close, poll_tick, dispose, mount,
}
use vault_vk.Notifications.Centre.{Stamp}
use vault_vk.App.Defs as Defs
use vault_vk.App.Defs.{
  App, Event, browser, clicked, answered, rendered, toggled, closed_list, cleared, loop_of, click,
  settled, answer, watch_nodes, render, browse, Reach, here, next,
}

module _ {N : Type 0} where
  -- There are events that lead the store from one state to the other.
  abbrev Leads : Loop N → Loop N → Type 0
  Leads l m = (es : List (EventLoop.Event N)) × (run l es ≡ m)

  Leads-trans : (l m k : Loop N) → Leads l m → Leads m k → Leads l k
  Leads-trans l m k h g = (h.0 ++ g.0, run-append l h.0 g.0 ∙ ap (λ j. run j g.0) h.1 ∙ g.1)

  Leads-refl : (l : Loop N) → Leads l l
  unfolding run
  Leads-refl l = ([], refl)

  Leads-step : (l : Loop N) (e : EventLoop.Event N) → Leads l (EventLoop.step l e)
  unfolding run
  Leads-step l e = (e ∷ [], refl)

  -- What one snapshot does to the store: its nodes and its sample, if it has them.
  abbrev pub put_nodes : Option (List (NodeMeta N)) → ClusterState N → ClusterState N
  put_nodes none s = s
  put_nodes (some nodes) s = set_nodes nodes s

  abbrev pub put_sample : Option (MetricsPoint N) → ClusterState N → ClusterState N
  put_sample none s = s
  put_sample (some pt) s = push_metrics pt s

  Leads-put :
      (nodes : Option (List (NodeMeta N))) (pt : Option (MetricsPoint N)) (s : ClusterState N)
      (waiting : List (Pending N))
      → Leads
          (record { store = s; pending = waiting })
          (record { store = put_sample pt (put_nodes nodes s); pending = waiting })
  unfolding run EventLoop.step
  Leads-put none none s waiting = ([], refl)
  Leads-put none (some pt) s waiting = (sample pt ∷ [], refl)
  Leads-put (some nodes) none s waiting = (snapshot nodes ∷ [], refl)
  Leads-put (some nodes) (some pt) s waiting = (snapshot nodes ∷ sample pt ∷ [], refl)

  put_status : Option WsStatus → ClusterState N → ClusterState N
  put_status none s = s
  put_status (some w) s = set_status w s

  status_of : Feed.Event N → Feed.Feed N → Option WsStatus
  status_of opens f = some opened
  status_of closes f = if f.disposed then none else some closed
  status_of reconnect_fires f = if f.disposed then none else some connecting
  status_of e f = none

  Leads-status :
      (w : Option WsStatus) (s : ClusterState N) {s' : ClusterState N} (waiting : List (Pending N))
      → s' ≡ put_status w s
      → Leads (record { store = s; pending = waiting }) (record { store = s'; pending = waiting })
  unfolding run EventLoop.step put_status
  Leads-status none s waiting e = rw e ([], refl)
  Leads-status (some w) s waiting e = rw e (status w ∷ [], refl)

module _ (F : Arith) where
  open F use {Num, nat}

  pub sample_of : Num → Snapshot (NodeMeta Num) Num → Console Num → Option (MetricsPoint Num)
  sample_of now d c = elim (direct_metrics (get_or_else d.ts now) d) [
    | some pt ↦ some pt
    | none ↦ elim d.nodes [
      | none ↦ none
      | some nodes ↦ elim c.previous [
        | none ↦ none
        | some prev ↦ some (derived F prev (totals (get_or_else d.ts now) nodes) nodes)
      ]
    ]
  ]

  pub consume_snapshot-put :
      (now : Num) (d : Snapshot (NodeMeta Num) Num) (c : Console Num)
      → (consume_snapshot F now d c).store
        ≡ put_sample (sample_of now d c) (put_nodes d.nodes c.store)
  unfolding consume_snapshot sample_of
  consume_snapshot-put now d c = ground arith

  receive-Leads :
      (now : Num) (d : Option (Snapshot (NodeMeta Num) Num)) (f : Feed.Feed Num)
      (waiting : List (Pending Num))
      → Leads
          (record { store = f.console.store; pending = waiting })
          (record { store = (Feed.receive F now d f).console.store; pending = waiting })
  receive-Leads now none f waiting = Leads-refl _
  receive-Leads now (some d) f waiting =
      rw (consume_snapshot-put now d f.console)
        (Leads-put d.nodes (sample_of now d f.console) f.console.store waiting)

  feed-Leads :
      (now : Num) (e : Feed.Event Num) (f : Feed.Feed Num) {g : Feed.Feed Num}
      (waiting : List (Pending Num))
      → Feed.step F now e f ≡ some g
      → Leads
          (record { store = f.console.store; pending = waiting })
          (record { store = g.console.store; pending = waiting })
  unfolding Feed.step put_status status_of
  feed-Leads now (message d) f {g} waiting h =
      let e : g.console.store ≡ (Feed.receive F now d f).console.store = ground arith in
      rw e (receive-Leads now d f waiting)
  feed-Leads now (fetched d) f {g} waiting h =
      let e : g.console.store ≡ (Feed.receive F now d f).console.store = ground arith in
      rw e (receive-Leads now d f waiting)
  feed-Leads now e f waiting h = Leads-status (status_of e f) f.console.store waiting (ground arith)

module _ (F : Arith) (stamp : ℕ → Stamp F.Num) where
  open F use {Num, nat}

  pub browse-loop :
      (e : Feed.Event Num) (a : App Num) (g : Feed.Feed Num) {b : App Num}
      → browse F stamp e a (some g) ≡ some b
      → loop_of b ≡ record { store = g.console.store; pending = a.pending }
  browse-loop e a g h = ground arith

  pub watch_nodes-loop : (a : App Num) → loop_of (watch_nodes stamp a) ≡ loop_of a
  unfolding watch_nodes
  watch_nodes-loop a = ground arith

  answer-Leads :
      (place : ℕ) (reply : Reply) (a : App Num) {b : App Num}
      → answer place reply a ≡ some b
      → Leads (loop_of a) (loop_of b)
  unfolding answer settled
  answer-Leads place reply a {b} h =
      let e : loop_of b ≡ EventLoop.step (loop_of a) (EventLoop.answer place reply) =
        ground arith in
      rw e (Leads-step (loop_of a) (EventLoop.answer place reply))

  step-Leads :
      (now : Num) (e : Event Num) (a : App Num) {b : App Num}
      → Defs.step F stamp now e a ≡ some b
      → Leads (loop_of a) (loop_of b)
  unfolding Defs.step click render
  step-Leads now (browser e) a {b} h = elim (Option-cases (Feed.step F now e a.feed)) [
    | inl k ↦ absurd (ground arith)
    | inr (g, k) ↦
        rw (browse-loop e a g (subst (λ o. browse F stamp e a o ≡ some b) k h))
          (feed-Leads F now e a.feed a.pending k)
  ]
  step-Leads now (clicked action id) a {b} h =
      let e : loop_of b ≡ EventLoop.step (loop_of a) (EventLoop.start action id) = ground arith in
      rw e (Leads-step (loop_of a) (EventLoop.start action id))
  step-Leads now (answered place reply) a h = answer-Leads place reply a h
  step-Leads now rendered a {b} h =
      let e : loop_of b ≡ loop_of a =
        sym (ap loop_of (some-injective (render stamp a) b h)) ∙ watch_nodes-loop _ in
      rw e (Leads-refl (loop_of a))
  step-Leads now toggled a {b} h =
      let e : loop_of b ≡ loop_of a = ground arith in rw e (Leads-refl (loop_of a))
  step-Leads now closed_list a {b} h =
      let e : loop_of b ≡ loop_of a = ground arith in rw e (Leads-refl (loop_of a))
  step-Leads now cleared a {b} h =
      let e : loop_of b ≡ loop_of a = ground arith in rw e (Leads-refl (loop_of a))

  opening-loop : loop_of (Defs.opening F stamp) ≡ opening nat
  unfolding Defs.opening mount connect set_status initial
  opening-loop = refl

  -- In every state of the page that the browser, the operator and React's renders lead to, the store
  -- and the waiting actions are what some events of the store's own loop make of its opening state:
  -- the feed, the clicks and the renders change the store by its own actions only.
  pub Reach-Leads :
      {a : App Num}
      → Reach F stamp a
      → (es : List (EventLoop.Event Num)) × (run (opening nat) es ≡ loop_of a)
  Reach-Leads here = rw opening-loop (Leads-refl (opening nat))
  Reach-Leads (next {a} {b} now e r h) =
      Leads-trans (opening nat) (loop_of a) (loop_of b) (Reach-Leads r) (step-Leads now e a h)

  -- So what holds of the store after any events holds of the page's.
  pub Reach-Inv : {a : App Num} → Reach F stamp a → Inv (loop_of a)
  Reach-Inv r = let l = Reach-Leads r in subst Inv l.1 (run-opening-Inv nat l.0)
