-- ===== src/App/Bounds.antt =====
-- What the page keeps, however long it runs.
use mathlib.Core.Option.{some-injective}
use vault_vk.Common.{
  ℕ, ◌+◌, ◌≤◌, ◌≡◌, ap, sym, subst, ◌∙◌, true, List, [], ◌∷◌, Option, none, some, length,
  length-map, length-take-le, length-slice_last-le, slice_last, Distinct, arith, if◌then◌else◌,
}
use vault_vk.Numbers.Defs.{Arith}
use vault_vk.Store.Actions.{Reply}
use vault_vk.Store.EventLoop.Invariant.{samples, run-opening-history}
use vault_vk.Notifications.Centre.{
  Notice, NotificationItem, Stamp, item, push_notification, mark_read,
}
use vault_vk.Notifications.History as History
use vault_vk.Feed.Defs as Feed
use vault_vk.App.Defs as Defs
use vault_vk.App.Defs.{
  App, Event, browser, clicked, answered, rendered, toggled, closed_list, cleared, started, click,
  settled, answer, watch_nodes, render, browse, Reach, here, next,
}
use vault_vk.App.Refines.{Reach-Leads, Reach-Inv}

module _ {N : Type 0} where
  abbrev IsShort : History.Bell N → Type 0
  IsShort b = length b.notifications ≤ 60

  push_all-short :
      (stamp : ℕ → Stamp N) (k : ℕ) (ns : List Notice) (items : List (NotificationItem N))
      → length items ≤ 60
      → length (History.push_all stamp k ns items) ≤ 60
  unfolding History.push_all push_notification
  push_all-short stamp k [] items h = h
  push_all-short stamp k (n ∷ ns) items h =
      push_all-short stamp (k + 1) ns (push_notification (stamp k) n items)
        (length-take-le 60 (item (stamp k) n ∷ items))

  length-mark_read : (items : List (NotificationItem N)) → length (mark_read items) ≡ length items
  unfolding mark_read
  length-mark_read items =
      length-map (λ it. if it.read then it else record it { read = true }) items

  bell-IsShort :
      (stamp : ℕ → Stamp N) (e : History.Event N) (b : History.Bell N)
      → IsShort b
      → IsShort (History.step stamp e b)
  unfolding History.step
  bell-IsShort stamp (History.status_changed s) b h = push_all-short stamp b.calls _ _ h
  bell-IsShort stamp (History.nodes_changed nodes) b h = push_all-short stamp b.calls _ _ h
  bell-IsShort stamp History.toggled b h = ground (arith, length-mark_read b.notifications)
  bell-IsShort stamp History.closed_list b h = h
  bell-IsShort stamp History.cleared b h = omega arith

  watch_nodes-IsShort :
      (stamp : ℕ → Stamp N) (a : App N) → IsShort a.bell → IsShort (watch_nodes stamp a).bell
  unfolding watch_nodes
  watch_nodes-IsShort stamp a h =
      ground (arith, bell-IsShort stamp (History.nodes_changed a.feed.console.store.nodes) a.bell h)

module _ (F : Arith) (stamp : ℕ → Stamp F.Num) where
  open F use {Num, nat}

  render-IsShort : (a : App Num) → IsShort a.bell → IsShort (render stamp a).bell
  unfolding render
  render-IsShort a h = watch_nodes-IsShort stamp _ (bell-IsShort stamp _ a.bell h)

  -- The bell after each event: unchanged, or after one of its own.
  browse-bell :
      (e : Feed.Event Num) (a : App Num) (o : Option (Feed.Feed Num)) {b : App Num}
      → browse F stamp e a o ≡ some b
      → b.bell ≡ a.bell
  browse-bell e a none h = absurd (ground arith)
  browse-bell e a (some g) h = ground arith

  answer-bell :
      (place : ℕ) (reply : Reply) (a : App Num) {b : App Num}
      → answer place reply a ≡ some b
      → b.bell ≡ a.bell
  unfolding answer settled
  answer-bell place reply a h = ground arith

  step-IsShort :
      (now : Num) (e : Event Num) (a : App Num) {b : App Num}
      → Defs.step F stamp now e a ≡ some b
      → IsShort a.bell
      → IsShort b.bell
  unfolding Defs.step click started History.step
  step-IsShort now (browser e) a h v = subst IsShort (sym (browse-bell e a _ h)) v
  step-IsShort now (clicked action id) a {b} h v =
      subst (λ x. IsShort x.bell) (some-injective (click action id a) b h) v
  step-IsShort now (answered place reply) a h v =
      subst IsShort (sym (answer-bell place reply a h)) v
  step-IsShort now rendered a {b} h v =
      subst (λ x. IsShort x.bell) (some-injective (render stamp a) b h) (render-IsShort a v)
  step-IsShort now toggled a {b} h v =
      subst (λ x. IsShort x.bell) (some-injective _ b h)
        (bell-IsShort stamp History.toggled a.bell v)
  step-IsShort now closed_list a {b} h v = subst (λ x. IsShort x.bell) (some-injective _ b h) v
  step-IsShort now cleared a {b} h v =
      subst (λ x. IsShort x.bell) (some-injective _ b h)
        (bell-IsShort stamp History.cleared a.bell v)

  Reach-IsShort : {a : App Num} → Reach F stamp a → IsShort a.bell
  unfolding Defs.opening History.opening History.push_all push_notification
  Reach-IsShort here = omega arith
  Reach-IsShort (next {a} now e r h) = step-IsShort now e a h (Reach-IsShort r)

  abbrev pub IsBounded : App Num → Type 0
  IsBounded a =
      let s = a.feed.console.store in
      (length s.history ≤ 120)
      × (length a.bell.notifications ≤ 60)
      × Distinct s.forced_down_node_ids

  -- However long the page runs and whatever it meets: it keeps at most 120 samples and 60
  -- notifications, and its forced list names no node twice.
  pub Reach-IsBounded : {a : App Num} → Reach F stamp a → IsBounded a
  Reach-IsBounded {a} r =
      let l = Reach-Leads F stamp r in
      let h : a.feed.console.store.history ≡ slice_last 120 (samples l.0) =
        ap (λ m. m.store.history) (sym l.1) ∙ run-opening-history nat l.0 in
      (
        subst (λ xs. length xs ≤ 120) (sym h) (length-slice_last-le 120 (samples l.0)),
        Reach-IsShort r,
        (Reach-Inv F stamp r).now.distinct,
      )
