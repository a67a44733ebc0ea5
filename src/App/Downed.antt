-- ===== src/App/Downed.antt =====
-- A node that the operator has killed, on the page as a whole.
use mathlib.Core.Option.{some-injective}
use vault_vk.Common.{
  ℕ, ◌==◌, ◌≡◌, refl, ap, sym, ◌∙◌, subst, inl, inr, true, false, List, Option, none, some,
  Option-cases, arith, includes, All,
}
use vault_vk.Numbers.Defs.{Arith}
use vault_vk.Store.Defs.{NodeMeta, MetricsPoint, ClusterState, set_nodes, push_metrics, set_status}
use vault_vk.Store.Actions.{Action, kill, restart, Reply, outcome}
use vault_vk.Store.EventLoop as EventLoop
use vault_vk.Store.EventLoop.{Loop}
use vault_vk.Store.EventLoop.Forced.{held_down, held_step, step-held, answer-held}
use vault_vk.Store.EventLoop.Sticks.{IsShownDown, masked-IsShownDown}
use vault_vk.Metrics.Snapshot.{Snapshot}
use vault_vk.Feed.Defs as Feed
use vault_vk.Feed.Defs.{
  opens, fails, closes, message, fetched, reconnect_fires, poll_fires, unmounts, connect, on_open,
  on_error, on_close, poll_tick, dispose,
}
use vault_vk.Notifications.Centre.{Stamp}
use vault_vk.App.Defs as Defs
use vault_vk.App.Defs.{
  App, Event, browser, clicked, answered, rendered, toggled, closed_list, cleared, loop_of, click,
  settled, answer, watch_nodes, render, browse, Reach, here, next,
}
use vault_vk.App.Refines.{
  put_nodes, put_sample, sample_of, consume_snapshot-put, browse-loop, watch_nodes-loop, Reach-Inv,
}

abbrev forced : {N : Type 0} → ClusterState N → List ℕ
forced s = s.forced_down_node_ids

module _ {N : Type 0} where
  forced-put :
      (nodes : Option (List (NodeMeta N))) (pt : Option (MetricsPoint N)) (s : ClusterState N)
      → forced (put_sample pt (put_nodes nodes s)) ≡ forced s
  unfolding set_nodes push_metrics
  forced-put none none s = refl
  forced-put none (some pt) s = refl
  forced-put (some nodes) none s = refl
  forced-put (some nodes) (some pt) s = refl

  -- No refusal of an action, and no start of a restart of the node.
  abbrev pub Leaves : ℕ → Event N → Type 0
  Leaves a (answered place reply) = (action : Action) → (outcome action reply).ok ≡ true
  Leaves a (clicked restart id) = (id == a) ≡ false
  Leaves a e = Unit

  -- The node is on the forced list.
  abbrev IsHeld : ℕ → Loop N → Type 0
  IsHeld a l = includes (forced l.store) a ≡ true

  start-IsHeld :
      (a id : ℕ) (action : Action) (l : Loop N)
      → Leaves a (clicked action id)
      → IsHeld a l
      → IsHeld a (EventLoop.step l (EventLoop.start action id))
  unfolding held_step
  start-IsHeld a id kill l ok h =
      ap (λ s. s.held a) (step-held l (EventLoop.start kill id)) ∙ ground arith
  start-IsHeld a id restart l ok h =
      ap (λ s. s.held a) (step-held l (EventLoop.start restart id)) ∙ ground (arith, ok)

  answer-IsHeld :
      (a place : ℕ) (reply : Reply) (l : Loop N)
      → Leaves a (answered place reply)
      → IsHeld a l
      → IsHeld a (EventLoop.step l (EventLoop.answer place reply))
  answer-IsHeld a place reply l ok h =
      ap (λ s. s.held a) (step-held l (EventLoop.answer place reply))
      ∙ ap (λ f. f a) (answer-held N (held_down l) place reply ok)
      ∙ h

module _ (F : Arith) where
  open F use {Num}

  receive-forced :
      (now : Num) (d : Option (Snapshot (NodeMeta Num) Num)) (f : Feed.Feed Num)
      → forced (Feed.receive F now d f).console.store ≡ forced f.console.store
  receive-forced now none f = refl
  receive-forced now (some d) f =
      ap forced (consume_snapshot-put F now d f.console)
      ∙ forced-put d.nodes (sample_of F now d f.console) f.console.store

  feed-forced :
      (now : Num) (e : Feed.Event Num) (f : Feed.Feed Num) {g : Feed.Feed Num}
      → Feed.step F now e f ≡ some g
      → forced g.console.store ≡ forced f.console.store
  unfolding Feed.step set_status
  feed-forced now (message d) f {g} h =
      let e : g.console.store ≡ (Feed.receive F now d f).console.store = ground arith in
      ap forced e ∙ receive-forced now d f
  feed-forced now (fetched d) f {g} h =
      let e : g.console.store ≡ (Feed.receive F now d f).console.store = ground arith in
      ap forced e ∙ receive-forced now d f
  feed-forced now e f h = ground arith

module _ (F : Arith) (stamp : ℕ → Stamp F.Num) where
  open F use {Num}

  -- What the page comes to from a state with no refusal and no restart of the node.
  pub data Later (a : ℕ) (p : App Num) : App Num → Type 0 where
    at_once : Later a p p
    more :
        {q r : App Num} (now : Num) (e : Event Num)
        → Later a p q
        → Leaves a e
        → Defs.step F stamp now e q ≡ some r
        → Later a p r

  Later-Reach : {a : ℕ} {p q : App Num} → Reach F stamp p → Later a p q → Reach F stamp q
  Later-Reach r at_once = r
  Later-Reach r (more now e l ok s) = next now e (Later-Reach r l) s

  render-IsHeld : (a : ℕ) (q : App Num) → IsHeld a (loop_of q) → IsHeld a (loop_of (render stamp q))
  unfolding render
  render-IsHeld a q h = subst (IsHeld a) (sym (watch_nodes-loop F stamp _)) h

  answered-IsHeld :
      (a place : ℕ) (reply : Reply) (q : App Num) {r : App Num}
      → Leaves {N = Num} a (answered place reply)
      → answer place reply q ≡ some r
      → IsHeld a (loop_of q)
      → IsHeld a (loop_of r)
  unfolding answer settled
  answered-IsHeld a place reply q {r} ok s h =
      let e : loop_of r ≡ EventLoop.step (loop_of q) (EventLoop.answer place reply) =
        ground arith in
      subst (IsHeld a) (sym e) (answer-IsHeld a place reply (loop_of q) ok h)

  clicked-IsHeld :
      (a id : ℕ) (action : Action) (q : App Num)
      → Leaves {N = Num} a (clicked action id)
      → IsHeld a (loop_of q)
      → IsHeld a (loop_of (click action id q))
  unfolding click
  clicked-IsHeld a id action q ok h = start-IsHeld a id action (loop_of q) ok h

  step-IsHeld :
      (a : ℕ) (now : Num) (e : Event Num) (q : App Num) {r : App Num}
      → Leaves a e
      → Defs.step F stamp now e q ≡ some r
      → IsHeld a (loop_of q)
      → IsHeld a (loop_of r)
  unfolding Defs.step
  step-IsHeld a now (browser e) q {r} ok s h = elim (Option-cases (Feed.step F now e q.feed)) [
    | inl k ↦ absurd (ground arith)
    | inr (g, k) ↦
        let l = browse-loop F stamp e q g (subst (λ o. browse F stamp e q o ≡ some r) k s) in
        ap (λ l. includes (forced l.store) a) l
        ∙ ap (λ f. includes f a) (feed-forced F now e q.feed k)
        ∙ h
  ]
  step-IsHeld a now (clicked action id) q {r} ok s h =
      subst (λ r. IsHeld a (loop_of r)) (some-injective _ r s) (clicked-IsHeld a id action q ok h)
  step-IsHeld a now (answered place reply) q ok s h = answered-IsHeld a place reply q ok s h
  step-IsHeld a now rendered q {r} ok s h =
      subst (λ r. IsHeld a (loop_of r)) (some-injective _ r s) (render-IsHeld a q h)
  step-IsHeld a now toggled q {r} ok s h =
      subst (λ r. IsHeld a (loop_of r)) (some-injective _ r s) h
  step-IsHeld a now closed_list q {r} ok s h =
      subst (λ r. IsHeld a (loop_of r)) (some-injective _ r s) h
  step-IsHeld a now cleared q {r} ok s h =
      subst (λ r. IsHeld a (loop_of r)) (some-injective _ r s) h

  Later-IsHeld : {a : ℕ} {p q : App Num} → Later a p q → IsHeld a (loop_of p) → IsHeld a (loop_of q)
  Later-IsHeld at_once h = h
  Later-IsHeld {a} (more {q} now e l ok s) h = step-IsHeld a now e q ok s (Later-IsHeld l h)

  click-IsHeld : (a : ℕ) (p : App Num) → IsHeld a (loop_of (click kill a p))
  unfolding click held_step
  click-IsHeld a p =
      ap (λ s. s.held a) (step-held (loop_of p) (EventLoop.start kill a)) ∙ ground arith

  -- On the page, once the operator has killed a node: whatever the feed brings, in any order with
  -- other clicks, answers and renders, as long as no answer refuses its action and no restart of the
  -- node is clicked, each node with its id is shown neither healthy nor as leader.
  pub Later-AreShownDown :
      {p : App Num} (a : ℕ) {q : App Num}
      → Reach F stamp p
      → Later a (click kill a p) q
      → All (IsShownDown a) q.feed.console.store.nodes
  unfolding Defs.step
  Later-AreShownDown {p} a {q} r l =
      let reached = Later-Reach (next (F.nat 0) (clicked kill a) r refl) l in
      masked-IsShownDown a (forced q.feed.console.store) q.feed.console.store.nodes
        (Later-IsHeld l (click-IsHeld a p)) (Reach-Inv F stamp reached).now.masked
