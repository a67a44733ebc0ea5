-- ===== src/App/Arrays.antt =====
-- The numbers that stand for arrays of nodes: which array each owner has.
use mathlib.Core.Option.{some-injective}
use vault_vk.Common.{
  ℕ, zero, suc, ◌+◌, ◌<◌, ◌==◌, ◌≡◌, ◌∙◌, subst, inl, inr, false, List, [], ◌∷◌, ◌++◌, some,
  get_elem?, remove_at, Bool-cases, arith, if◌then◌else◌, get_or_else, is_some,
}
use vault_vk.Numbers.Defs.{Arith}
use vault_vk.Store.Defs.{NodeMeta, ClusterState, push_metrics, set_status}
use vault_vk.Store.Actions.{Action, Reply, outcome, settle}
use vault_vk.Store.EventLoop as EventLoop
use vault_vk.Store.EventLoop.{Pending}
use vault_vk.Metrics.Snapshot.{Snapshot}
use vault_vk.Metrics.Consume.{Console, consume_snapshot}
use vault_vk.Feed.Defs as Feed
use vault_vk.Feed.Defs.{
  opens, fails, closes, message, fetched, reconnect_fires, poll_fires, unmounts, connect, on_open,
  on_error, on_close, poll_tick, dispose, mount,
}
use vault_vk.Notifications.Centre.{Stamp}
use vault_vk.Notifications.History as History
use vault_vk.App.Defs.{App, sets_nodes, new_nodes, started, click, settled, watch_nodes}

module _ {N : Type 0} where
  -- Each number that is in use was given out, and stands for the nodes that its owner has.
  abbrev Stands : (ℕ → List (NodeMeta N)) → ℕ → List (NodeMeta N) → ℕ → Type 0
  Stands heap made nodes r = (nodes ≡ heap r) × (r < made)

  abbrev Agree : (ℕ → List (NodeMeta N)) → ℕ → List (Pending N) → List ℕ → Type 0
  Agree heap made [] [] = Unit
  Agree heap made (p ∷ ps) (r ∷ rs) = Stands heap made p.previous.nodes r × Agree heap made ps rs
  Agree heap made ps rs = ⊥

  pub record Kept (heap : ℕ → List (NodeMeta N)) (a : App N) : Type 0 where
    pub seen : Stands heap a.made a.bell.prev_nodes a.seen_ref
    pub waiting : Agree heap a.made a.pending a.refs

  pub record IsTracked (a : App N) : Type 0 where
    pub heap : ℕ → List (NodeMeta N)
    pub kept : Kept heap a
    pub now : Stands heap a.made a.feed.console.store.nodes a.nodes_ref

  abbrev extend : (ℕ → List (NodeMeta N)) → ℕ → List (NodeMeta N) → ℕ → List (NodeMeta N)
  extend heap made nodes r = if r == made then nodes else heap r

  extend-Stands :
      (heap : ℕ → List (NodeMeta N)) (made : ℕ) (nodes others : List (NodeMeta N)) (r : ℕ)
      → Stands heap made others r
      → Stands (extend heap made nodes) (made + 1) others r
  extend-Stands heap made nodes others r h = ground arith

  extend-Agree :
      (heap : ℕ → List (NodeMeta N)) (made : ℕ) (nodes : List (NodeMeta N)) (ps : List (Pending N))
      (rs : List ℕ)
      → Agree heap made ps rs
      → Agree (extend heap made nodes) (made + 1) ps rs
  extend-Agree heap made nodes [] [] h = tt
  extend-Agree heap made nodes (p ∷ ps) (r ∷ rs) h =
      (extend-Stands heap made nodes p.previous.nodes r h.0, extend-Agree heap made nodes ps rs h.1)
  extend-Agree heap made nodes [] (r ∷ rs) h = absurd h
  extend-Agree heap made nodes (p ∷ ps) [] h = absurd h

  Agree-concat :
      (heap : ℕ → List (NodeMeta N)) (made : ℕ) (ps : List (Pending N)) (rs : List ℕ)
      (p : Pending N) (r : ℕ)
      → Agree heap made ps rs
      → Stands heap made p.previous.nodes r
      → Agree heap made (ps ++ p ∷ []) (rs ++ r ∷ [])
  Agree-concat heap made [] [] p r h s = (s, tt)
  Agree-concat heap made (q ∷ ps) (t ∷ rs) p r h s = (h.0, Agree-concat heap made ps rs p r h.1 s)
  Agree-concat heap made [] (t ∷ rs) p r h s = absurd h
  Agree-concat heap made (q ∷ ps) [] p r h s = absurd h

  Agree-remove_at :
      (heap : ℕ → List (NodeMeta N)) (made : ℕ) (ps : List (Pending N)) (rs : List ℕ) (place : ℕ)
      → Agree heap made ps rs
      → Agree heap made (remove_at place ps) (remove_at place rs)
  Agree-remove_at heap made [] [] place h = ground arith
  Agree-remove_at heap made (q ∷ ps) (t ∷ rs) zero h = h.1
  Agree-remove_at heap made (q ∷ ps) (t ∷ rs) (suc place) h =
      (h.0, Agree-remove_at heap made ps rs place h.1)
  Agree-remove_at heap made [] (t ∷ rs) place h = absurd h
  Agree-remove_at heap made (q ∷ ps) [] place h = absurd h

  Agree-get :
      (heap : ℕ → List (NodeMeta N)) (made : ℕ) (ps : List (Pending N)) (rs : List ℕ) (place d : ℕ)
      (p : Pending N)
      → Agree heap made ps rs
      → get_elem? ps place ≡ some p
      → Stands heap made p.previous.nodes (get_or_else (get_elem? rs place) d)
  Agree-get heap made [] [] place d p h e = cc
  Agree-get heap made (q ∷ ps) (t ∷ rs) zero d p h e =
      subst (λ x. Stands heap made x.previous.nodes t) (some-injective q p e) h.0
  Agree-get heap made (q ∷ ps) (t ∷ rs) (suc place) d p h e =
      Agree-get heap made ps rs place d p h.1 e
  Agree-get heap made [] (t ∷ rs) place d p h e = absurd h
  Agree-get heap made (q ∷ ps) [] place d p h e = absurd h

  -- Another array of nodes takes the next number, whatever it holds.
  pub new_nodes-IsTracked :
      (heap : ℕ → List (NodeMeta N)) (a : App N) → Kept heap a → IsTracked (new_nodes a)
  new_nodes-IsTracked heap a k = record {
    heap = extend heap a.made a.feed.console.store.nodes;
    kept = record {
      seen = extend-Stands heap a.made _ a.bell.prev_nodes a.seen_ref k.seen;
      waiting = extend-Agree heap a.made _ a.pending a.refs k.waiting;
    };
    now = (ground arith, omega arith);
  }

  pub click-IsTracked :
      (action : Action) (id : ℕ) (a : App N) → IsTracked a → IsTracked (click action id a)
  unfolding click started EventLoop.step
  click-IsTracked action id a t = new_nodes-IsTracked t.heap (started action id a) (record {
    seen = t.kept.seen;
    waiting = Agree-concat t.heap a.made a.pending a.refs _ a.nodes_ref t.kept.waiting t.now;
  })

  settle-Stands :
      (heap : ℕ → List (NodeMeta N)) (made r k : ℕ) (p : Pending N) (reply : Reply)
      (s : ClusterState N)
      → Stands heap made s.nodes r
      → Stands heap made p.previous.nodes k
      → Stands heap made
          (settle p.action p.previous reply s).0.nodes
          (if (outcome p.action reply).ok then r else k)
  unfolding settle
  settle-Stands heap made r k p reply s h g = ground arith

  pub settled-IsTracked :
      (place : ℕ) (reply : Reply) (a : App N) (p : Pending N)
      → IsTracked a
      → get_elem? a.pending place ≡ some p
      → IsTracked (settled p place reply a)
  unfolding settled EventLoop.step
  settled-IsTracked place reply a p t e =
      rw (settled, EventLoop.step, e)
        (record {
          heap = t.heap;
          kept = record {
            seen = t.kept.seen;
            waiting = Agree-remove_at t.heap a.made a.pending a.refs place t.kept.waiting;
          };
          now =
              settle-Stands t.heap a.made a.nodes_ref _ p reply a.feed.console.store t.now
                (Agree-get t.heap a.made a.pending a.refs place a.nodes_ref p t.kept.waiting e);
        })

  pub watch_nodes-IsTracked :
      (stamp : ℕ → Stamp N) (a : App N) → IsTracked a → IsTracked (watch_nodes stamp a)
  unfolding watch_nodes History.step
  watch_nodes-IsTracked stamp a t = elim (Bool-cases (a.seen_ref == a.nodes_ref)) [
    | inl e ↦ rw (e, watch_nodes, if◌then◌else◌) t
    | inr e ↦
        rw (e, watch_nodes, if◌then◌else◌)
          (record {
            heap = t.heap;
            kept = record { seen = t.now; waiting = t.kept.waiting };
            now = t.now;
          })
  ]

  -- What the effect on the nodes does not see.
  pub bell-IsTracked :
      (a : App N) (bell : History.Bell N)
      → bell.prev_nodes ≡ a.bell.prev_nodes
      → IsTracked a
      → IsTracked (record a { bell = bell })
  bell-IsTracked a bell e t = record {
    heap = t.heap;
    kept = record { seen = (e ∙ t.kept.seen.0, t.kept.seen.1); waiting = t.kept.waiting };
    now = t.now;
  }

  pub feed-IsTracked :
      (a : App N) (g : Feed.Feed N)
      → g.console.store.nodes ≡ a.feed.console.store.nodes
      → IsTracked a
      → IsTracked (record a { feed = g })
  feed-IsTracked a g e t = record {
    heap = t.heap;
    kept = record { seen = t.kept.seen; waiting = t.kept.waiting };
    now = (e ∙ t.now.0, t.now.1);
  }

module _ (F : Arith) where
  open F use {Num}

  nodes-consume_snapshot :
      (now : Num) (d : Snapshot (NodeMeta Num) Num) (c : Console Num)
      → is_some d.nodes ≡ false
      → (consume_snapshot F now d c).store.nodes ≡ c.store.nodes
  unfolding consume_snapshot push_metrics
  nodes-consume_snapshot now d c h = ground arith

  -- Only data that has nodes changes the nodes.
  pub nodes-step :
      (now : Num) (e : Feed.Event Num) (f : Feed.Feed Num) {g : Feed.Feed Num}
      → sets_nodes e ≡ false
      → Feed.step F now e f ≡ some g
      → g.console.store.nodes ≡ f.console.store.nodes
  unfolding Feed.step set_status
  nodes-step now (message (some d)) f k h = ground (arith, nodes-consume_snapshot now d f.console k)
  nodes-step now (fetched (some d)) f k h = ground (arith, nodes-consume_snapshot now d f.console k)
  nodes-step now e f k h = ground arith
