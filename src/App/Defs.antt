-- ===== src/App/Defs.antt =====
-- The parts of `App` that work on the same store, and how they are run together. React runs an effect
-- after a render if a value that it names is another one than at the render before; the nodes are
-- compared by reference, so each array of nodes has a number here.
use vault_vk.Common.{
  ℕ, ◌+◌, ◌==◌, ◌≡◌, Bool, false, List, [], ◌∷◌, ◌++◌, Option, none, some, get_elem?, remove_at,
  is_some, get_or_else, if◌then◌else◌,
}
use vault_vk.Numbers.Defs.{Arith}
use vault_vk.Store.Defs.{connecting, initial}
use vault_vk.Store.Actions.{Action, Reply, outcome}
use vault_vk.Store.EventLoop as EventLoop
use vault_vk.Store.EventLoop.{Pending, Loop}
use vault_vk.Feed.Defs as Feed
use vault_vk.Notifications.Centre.{Stamp}
use vault_vk.Notifications.History as History

pub record App (N : Type 0) : Type 0 where
  pub feed : Feed.Feed N
  -- The calls of `killNode` and `restartNode` that wait, and the array of nodes that each has read.
  pub pending : List (Pending N)
  pub refs : List ℕ
  pub bell : History.Bell N
  -- The array of nodes in the store, the one of the last render, and how many were made.
  pub nodes_ref : ℕ
  pub seen_ref : ℕ
  pub made : ℕ

pub data Event (N : Type 0) : Type 0 where
  browser : Feed.Event N → Event N
  clicked : Action → (id : ℕ) → Event N
  answered : (place : ℕ) → Reply → Event N
  rendered : Event N
  toggled closed_list cleared : Event N

module _ {N : Type 0} where
  abbrev pub loop_of : App N → Loop N
  loop_of a = record { store = a.feed.console.store; pending = a.pending }

  abbrev put_loop : Loop N → App N → App N
  put_loop l a = record a {
    feed = record a.feed { console = record a.feed.console { store = l.store } };
    pending = l.pending;
  }

  -- Another array of nodes in the store.
  abbrev pub new_nodes : App N → App N
  new_nodes a = record a { nodes_ref = a.made; made = a.made + 1 }

  -- Whether the event's data has nodes, which `setNodes` then puts into the store.
  abbrev pub sets_nodes : Feed.Event N → Bool
  sets_nodes (Feed.message (some d)) = is_some d.nodes
  sets_nodes (Feed.fetched (some d)) = is_some d.nodes
  sets_nodes e = false

  -- The click starts an action, which reads the array of nodes and puts another one.
  unfoldable pub started : Action → ℕ → App N → App N
  started action id a =
      record (put_loop (EventLoop.step (loop_of a) (EventLoop.start action id)) a) {
        refs = a.refs ++ a.nodes_ref ∷ [];
      }

  unfoldable pub click : Action → ℕ → App N → App N
  unfolding started
  click action id a = new_nodes (started action id a)

  -- A refusal puts the array of nodes back that was read at the start.
  unfoldable pub settled : Pending N → ℕ → Reply → App N → App N
  settled p place reply a =
      let l = EventLoop.step (loop_of a) (EventLoop.answer place reply) in
      let back = get_or_else (get_elem? a.refs place) a.nodes_ref in
      record (put_loop l a) {
        refs = remove_at place a.refs;
        nodes_ref = if (outcome p.action reply).ok then a.nodes_ref else back;
      }

  unfoldable pub answer : ℕ → Reply → App N → Option (App N)
  unfolding settled
  answer place reply a = elim (get_elem? a.pending place) [
    | none ↦ none
    | some p ↦ some (settled p place reply a)
  ]

  abbrev bell_event : History.Event N → (ℕ → Stamp N) → App N → App N
  bell_event e stamp a = record a { bell = History.step stamp e a.bell }

module _ {N : Type 0} (stamp : ℕ → Stamp N) where
  -- The effect on the nodes, which is skipped while their array is the same.
  unfoldable pub watch_nodes : App N → App N
  watch_nodes a = if a.seen_ref == a.nodes_ref then a else record a {
    bell = History.step stamp (History.nodes_changed a.feed.console.store.nodes) a.bell;
    seen_ref = a.nodes_ref;
  }

  -- The effects of a render, in their order.
  unfoldable pub render : App N → App N
  unfolding watch_nodes
  render a = watch_nodes (record a {
    bell = History.step stamp (History.status_changed a.feed.console.store.ws_status) a.bell;
  })

module _ (F : Arith) (stamp : ℕ → Stamp F.Num) where
  open F use {Num, nat}

  abbrev pub browse : Feed.Event Num → App Num → Option (Feed.Feed Num) → Option (App Num)
  browse e a none = none
  browse e a (some g) =
      let b : App Num = record a { feed = g } in some (if sets_nodes e then new_nodes b else b)

  -- What each event leads to; none where the browser cannot raise it.
  unfoldable pub step : Num → Event Num → App Num → Option (App Num)
  unfolding click answer render
  step now (browser e) a = browse e a (Feed.step F now e a.feed)
  step now (clicked action id) a = some (click action id a)
  step now (answered place reply) a = answer place reply a
  step now rendered a = some (render stamp a)
  step now toggled a = some (bell_event History.toggled stamp a)
  step now closed_list a = some (bell_event History.closed_list stamp a)
  step now cleared a = some (bell_event History.cleared stamp a)

  -- The page after its first render and effects.
  unfoldable pub opening : App Num
  opening =
      let store = initial nat in
      record {
        feed = Feed.mount (record { store = store; previous = none });
        pending = [];
        refs = [];
        bell = History.opening stamp connecting store.nodes;
        nodes_ref = 0;
        seen_ref = 0;
        made = 1;
      }

  pub data Reach : App Num → Type 0 where
    here : Reach opening
    next : {a b : App Num} (now : Num) (e : Event Num) → Reach a → step now e a ≡ some b → Reach b
