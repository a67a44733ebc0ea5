-- ===== src/App/CaughtUp.antt =====
-- What the effects of a render have seen of the store.
use mathlib.Core.Option.{some-injective}
use vault_vk.Common.{
  ℕ, ◌==◌, ◌≡◌, refl, ap, sym, ◌∙◌, subst, inl, inr, Option, none, some, get_elem?, Option-cases,
  Bool-cases, arith, if◌then◌else◌, ==_iff,
}
use vault_vk.Numbers.Defs.{Arith}
use vault_vk.Store.Defs.{initial, set_status}
use vault_vk.Store.Actions.{Reply}
use vault_vk.Feed.Defs as Feed
use vault_vk.Feed.Defs.{connect, mount}
use vault_vk.Notifications.Centre.{Stamp}
use vault_vk.Notifications.History as History
use vault_vk.App.Defs as Defs
use vault_vk.App.Defs.{
  App, Event, browser, clicked, answered, rendered, toggled, closed_list, cleared, sets_nodes,
  new_nodes, click, settled, answer, watch_nodes, render, browse, Reach, here, next,
}
use vault_vk.App.Arrays.{
  IsTracked, new_nodes-IsTracked, click-IsTracked, settled-IsTracked, watch_nodes-IsTracked,
  bell-IsTracked, feed-IsTracked, nodes-step,
}

module _ (F : Arith) (stamp : ℕ → Stamp F.Num) where
  open F use {Num, nat}

  browse-IsTracked :
      (now : Num) (e : Feed.Event Num) (a : App Num) (o : Option (Feed.Feed Num)) {b : App Num}
      → Feed.step F now e a.feed ≡ o
      → browse F stamp e a o ≡ some b
      → IsTracked a
      → IsTracked b
  browse-IsTracked now e a none k h t = absurd (ground arith)
  browse-IsTracked now e a (some g) {b} k h t = elim (Bool-cases (sets_nodes e)) [
    | inl x ↦
        subst IsTracked (some-injective (new_nodes (record a { feed = g })) b (ground arith)) (
          new_nodes-IsTracked t.heap (record a { feed = g })
            (record { seen = t.kept.seen; waiting = t.kept.waiting }))
    | inr x ↦
        subst IsTracked (some-injective (record a { feed = g }) b (ground arith))
          (feed-IsTracked a g (nodes-step F now e a.feed x k) t)
  ]

  answer-IsTracked :
      (place : ℕ) (reply : Reply) (a : App Num) {b : App Num}
      → answer place reply a ≡ some b
      → IsTracked a
      → IsTracked b
  unfolding answer
  answer-IsTracked place reply a {b} h t = elim (Option-cases (get_elem? a.pending place)) [
    | inl e ↦ absurd (ground arith)
    | inr (p, e) ↦
        subst IsTracked (some-injective (settled p place reply a) b (ground arith))
          (settled-IsTracked place reply a p t e)
  ]

  render-IsTracked : (a : App Num) → IsTracked a → IsTracked (render stamp a)
  unfolding render History.step
  render-IsTracked a t = watch_nodes-IsTracked stamp _ (bell-IsTracked a _ refl t)

  step-IsTracked :
      (now : Num) (e : Event Num) (a : App Num) {b : App Num}
      → Defs.step F stamp now e a ≡ some b
      → IsTracked a
      → IsTracked b
  unfolding Defs.step History.step
  step-IsTracked now (browser e) a h t = browse-IsTracked now e a _ refl h t
  step-IsTracked now (clicked action id) a {b} h t =
      subst IsTracked (some-injective (click action id a) b h) (click-IsTracked action id a t)
  step-IsTracked now (answered place reply) a h t = answer-IsTracked place reply a h t
  step-IsTracked now rendered a {b} h t =
      subst IsTracked (some-injective (render stamp a) b h) (render-IsTracked a t)
  step-IsTracked now toggled a {b} h t =
      subst IsTracked (some-injective _ b h) (bell-IsTracked a _ refl t)
  step-IsTracked now closed_list a {b} h t =
      subst IsTracked (some-injective _ b h) (bell-IsTracked a _ refl t)
  step-IsTracked now cleared a {b} h t =
      subst IsTracked (some-injective _ b h) (bell-IsTracked a _ refl t)

  opening-IsTracked : IsTracked (Defs.opening F stamp)
  unfolding Defs.opening History.opening mount connect set_status
  opening-IsTracked = record {
    heap = λ r. (initial nat).nodes;
    kept = record { seen = (refl, omega arith); waiting = tt };
    now = (refl, omega arith);
  }

  Reach-IsTracked : {a : App Num} → Reach F stamp a → IsTracked a
  Reach-IsTracked here = opening-IsTracked
  Reach-IsTracked (next {a} {b} now e r h) = step-IsTracked now e a h (Reach-IsTracked r)

  -- The effects have compared with what the store shows.
  abbrev pub IsCaughtUp : App Num → Type 0
  IsCaughtUp a =
      (a.bell.prev_nodes ≡ a.feed.console.store.nodes)
      × (a.bell.prev_ws_status ≡ a.feed.console.store.ws_status)

  watch_nodes-IsCaughtUp :
      (a : App Num)
      → IsTracked a
      → a.bell.prev_ws_status ≡ a.feed.console.store.ws_status
      → IsCaughtUp (watch_nodes stamp a)
  unfolding watch_nodes History.step
  watch_nodes-IsCaughtUp a t h = elim (Bool-cases (a.seen_ref == a.nodes_ref)) [
    | inl e ↦
        let k : a.seen_ref ≡ a.nodes_ref = (==_iff a.seen_ref a.nodes_ref).0 e in
        rw (e, watch_nodes, if◌then◌else◌) (t.kept.seen.0 ∙ ap t.heap k ∙ sym t.now.0, h)
    | inr e ↦ rw (e, watch_nodes, if◌then◌else◌) (refl, h)
  ]

  -- In every state of the page, the effects of a render leave nothing behind: what they compare with
  -- at the next render are the nodes and the status that the store now has, though the effect on the
  -- nodes is skipped while their array is the same one.
  pub render-IsCaughtUp : {a : App Num} → Reach F stamp a → IsCaughtUp (render stamp a)
  unfolding render History.step
  render-IsCaughtUp {a} r =
      watch_nodes-IsCaughtUp _ (bell-IsTracked a _ refl (Reach-IsTracked r)) refl
