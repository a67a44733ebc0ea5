-- ===== src/App/Connected.antt =====
-- The connection of the page, whatever the operator does beside it.
use mathlib.Core.Option.{some-injective}
use vault_vk.Common.{
  ℕ, ◌≡◌, refl, ap, sym, subst, ◌∙◌, inl, inr, false, Option, none, some, get_elem?, Option-cases,
  arith, if◌then◌else◌,
}
use vault_vk.Numbers.Defs.{Arith}
use vault_vk.Store.Defs.{ClusterState, opened}
use vault_vk.Store.Actions.{Action, kill, restart, Reply, begin, begin_kill, begin_restart, settle}
use vault_vk.Store.EventLoop as EventLoop
use vault_vk.Store.EventLoop.{Pending, Loop}
use vault_vk.Feed.Defs as Feed
use vault_vk.Feed.Defs.{up}
use vault_vk.Feed.Invariant.{IsSound, step-IsSound, mount-IsSound}
use vault_vk.Feed.Recovery.{IsSound-Connects}
use vault_vk.Notifications.Centre.{Stamp}
use vault_vk.Notifications.History as History
use vault_vk.App.Defs as Defs
use vault_vk.App.Defs.{
  App, Event, browser, clicked, answered, rendered, toggled, closed_list, cleared, sets_nodes,
  new_nodes, started, click, settled, answer, watch_nodes, render, browse, Reach, here, next,
  loop_of,
}

module _ {N : Type 0} where
  -- Soundness of a feed looks at no more of the store than the status.
  put-IsSound :
      (f : Feed.Feed N) (s : ClusterState N)
      → s.ws_status ≡ f.console.store.ws_status
      → IsSound f
      → IsSound (record f { console = record f.console { store = s } })
  put-IsSound f s e v = ground arith

  ws_status-start :
      (action : Action) (id : ℕ) (l : Loop N)
      → (EventLoop.step l (EventLoop.start action id)).store.ws_status ≡ l.store.ws_status
  unfolding EventLoop.step begin begin_kill begin_restart
  ws_status-start kill id l = refl
  ws_status-start restart id l = refl

  ws_status-settle :
      (p : Pending N) (reply : Reply) (s : ClusterState N)
      → (settle p.action p.previous reply s).0.ws_status ≡ s.ws_status
  unfolding settle
  ws_status-settle p reply s = ground arith

  ws_status-answer :
      (place : ℕ) (reply : Reply) (l : Loop N)
      → (EventLoop.step l (EventLoop.answer place reply)).store.ws_status ≡ l.store.ws_status
  unfolding EventLoop.step
  ws_status-answer place reply l = elim (Option-cases (get_elem? l.pending place)) [
    | inl e ↦ rw (e, EventLoop.step) refl
    | inr (p, e) ↦ rw (e, EventLoop.step) (ws_status-settle p reply l.store)
  ]

  click-IsSound :
      (action : Action) (id : ℕ) (a : App N) → IsSound a.feed → IsSound (click action id a).feed
  unfolding click started
  click-IsSound action id a v =
      put-IsSound a.feed (EventLoop.step (loop_of a) (EventLoop.start action id)).store
        (ws_status-start action id (loop_of a)) v

  settled-IsSound :
      (p : Pending N) (place : ℕ) (reply : Reply) (a : App N)
      → IsSound a.feed
      → IsSound (settled p place reply a).feed
  unfolding settled
  settled-IsSound p place reply a v =
      put-IsSound a.feed (EventLoop.step (loop_of a) (EventLoop.answer place reply)).store
        (ws_status-answer place reply (loop_of a)) v

  answer-IsSound :
      (place : ℕ) (reply : Reply) (a : App N) {b : App N}
      → answer place reply a ≡ some b
      → IsSound a.feed
      → IsSound b.feed
  unfolding answer
  answer-IsSound place reply a {b} h v = elim (Option-cases (get_elem? a.pending place)) [
    | inl e ↦ absurd (ground arith)
    | inr (p, e) ↦
        subst (λ x. IsSound x.feed) (some-injective (settled p place reply a) b (ground arith))
          (settled-IsSound p place reply a v)
  ]

  feed-watch_nodes : (stamp : ℕ → Stamp N) (a : App N) → (watch_nodes stamp a).feed ≡ a.feed
  unfolding watch_nodes
  feed-watch_nodes stamp a = ground arith

module _ (F : Arith) (stamp : ℕ → Stamp F.Num) where
  open F use {Num, nat}

  -- What `browse` leads to.
  browsed :
      (e : Feed.Event Num) (a : App Num) (g : Feed.Feed Num)
      → (b : App Num) × (browse F stamp e a (some g) ≡ some b) × (b.feed ≡ g)
  browsed e a g = (
    if sets_nodes e then new_nodes (record a { feed = g }) else record a { feed = g },
    refl,
    ground arith,
  )

  browse-IsSound :
      (now : Num) (e : Feed.Event Num) (a : App Num) (o : Option (Feed.Feed Num)) {b : App Num}
      → Feed.step F now e a.feed ≡ o
      → browse F stamp e a o ≡ some b
      → IsSound a.feed
      → IsSound b.feed
  browse-IsSound now e a none k h v = absurd (ground arith)
  browse-IsSound now e a (some g) {b} k h v =
      let w = browsed e a g in
      subst IsSound (sym w.2 ∙ ap (λ x. x.feed) (some-injective w.0 b (sym w.1 ∙ h)))
        (step-IsSound F now e a.feed v k)

  step-feed_IsSound :
      (now : Num) (e : Event Num) (a : App Num) {b : App Num}
      → Defs.step F stamp now e a ≡ some b
      → IsSound a.feed
      → IsSound b.feed
  unfolding Defs.step render
  step-feed_IsSound now (browser e) a h v = browse-IsSound now e a _ refl h v
  step-feed_IsSound now (clicked action id) a {b} h v =
      subst (λ x. IsSound x.feed) (some-injective (click action id a) b h)
        (click-IsSound action id a v)
  step-feed_IsSound now (answered place reply) a h v = answer-IsSound place reply a h v
  step-feed_IsSound now rendered a {b} h v =
      subst IsSound
        (sym (feed-watch_nodes stamp _) ∙ ap (λ x. x.feed) (some-injective (render stamp a) b h)) v
  step-feed_IsSound now toggled a {b} h v = subst (λ x. IsSound x.feed) (some-injective _ b h) v
  step-feed_IsSound now closed_list a {b} h v = subst (λ x. IsSound x.feed) (some-injective _ b h) v
  step-feed_IsSound now cleared a {b} h v = subst (λ x. IsSound x.feed) (some-injective _ b h) v

  Reach-feed_IsSound : {a : App Num} → Reach F stamp a → IsSound a.feed
  unfolding Defs.opening
  Reach-feed_IsSound here = mount-IsSound F _
  Reach-feed_IsSound (next {a} now e r h) = step-feed_IsSound now e a h (Reach-feed_IsSound r)

  -- What the page leads to from a state.
  pub data Later (a : App Num) : App Num → Type 0 where
    now_on : Later a a
    then_on :
        {b c : App Num} (now : Num) (e : Event Num)
        → Later a b
        → Defs.step F stamp now e b ≡ some c
        → Later a c

  lift :
      (a : App Num) {g : Feed.Feed Num}
      → Feed.Reach F a.feed g
      → (b : App Num) × Later a b × (b.feed ≡ g)
  unfolding Defs.step
  lift a Feed.here = (a, now_on, refl)
  lift a (Feed.next {g} {h} now e r s) =
      let l = lift a r in
      let w = browsed e l.0 h in
      let k : Feed.step F now e l.0.feed ≡ some h =
        subst (λ f. Feed.step F now e f ≡ some h) (sym l.2) s in
      (w.0, then_on now (browser e) l.1 (ap (browse F stamp e l.0) k ∙ w.1), w.2)

  -- The page with an open socket, shown as open, and announced as such by the next render.
  abbrev pub Reconnects : App Num → Type 0
  Reconnects a =
      (b : App Num) × Later a b
      × (b.feed.socket ≡ up)
      × (b.feed.console.store.ws_status ≡ opened)
      × ((render stamp b).bell.prev_ws_status ≡ opened)

  prev_ws_status-render :
      (b : App Num) → (render stamp b).bell.prev_ws_status ≡ b.feed.console.store.ws_status
  unfolding render watch_nodes History.step
  prev_ws_status-render b = ground arith

  -- From every state of the page before its hook is disposed, whatever the operator has clicked and
  -- whatever calls still wait, the browser can lead on to an open socket, which the store shows as
  -- open and the effects of the next render have taken note of.
  pub Reach-Reconnects : {a : App Num} → Reach F stamp a → a.feed.disposed ≡ false → Reconnects a
  Reach-Reconnects {a} r d =
      let c = IsSound-Connects F a.feed (Reach-feed_IsSound r) d in
      let l = lift a c.1 in
      let open_now : l.0.feed.console.store.ws_status ≡ opened =
        ap (λ f. f.console.store.ws_status) l.2 ∙ c.3 in
      (l.0, l.1, ap (λ f. f.socket) l.2 ∙ c.2, open_now, prev_ws_status-render l.0 ∙ open_now)
