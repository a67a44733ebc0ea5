-- ===== src/RaftView/Defs.antt =====
-- The state of `RaftView` on the store's loop, its clicks, and the lines that answers add.
use vault_vk.Common.{
  ℕ, Bool, not, List, [], ◌∷◌, ◌++◌, Option, some, get_elem?, remove_at, take, if◌then◌else◌,
}
use vault_vk.Text.{Text, codes}
use vault_vk.Text.Decimal.{show}
use vault_vk.Store.Defs.{NodeMeta}
use vault_vk.Store.Actions.{Action, kill, restart, NodeActionResult, Reply, outcome, truthy}
use vault_vk.Store.EventLoop as EventLoop
use vault_vk.Store.EventLoop.{Loop, Pending}

abbrev done_word : Action → Text
done_word kill = codes " killed"
done_word restart = codes " restarted"

abbrev failed_word : Action → Text
failed_word kill = codes "Kill failed for node "
failed_word restart = codes "Restart failed for node "

-- The line for a result.
unfoldable pub line : Action → ℕ → NodeActionResult → Text
line action id result =
    if result.ok
    then codes "Node "
      ++ show id
      ++ done_word action
      ++ (if truthy result.simulated then codes " (simulated)." else codes ".")
    else failed_word action ++ show id ++ codes ": " ++ result.detail

abbrev pub initialized : Text
initialized = codes "Cluster initialized. All nodes in FOLLOWER state."

-- `[event, ...prev].slice(0, 30)`
unfoldable pub push : Text → List Text → List Text
push event prev = take 30 (event ∷ prev)

module _ {N : Type 0} where
  -- Whether the button of a node is enabled.
  unfoldable pub enabled : Action → NodeMeta N → Bool
  enabled kill node = node.healthy
  enabled restart node = not node.healthy

  -- The badge of a node.
  unfoldable pub role : NodeMeta N → Text
  role node = if node.is_leader then codes "Leader" else codes "Follower"

pub record RaftView (N : Type 0) : Type 0 where
  pub loop : Loop N
  pub events : List Text
  -- The node of each call that waits.
  pub ids : List ℕ

-- A click on the button of a node as it is shown, an answer to a waiting call, and the steps of the
-- store that come from elsewhere.
pub data Event (N : Type 0) : Type 0 where
  clicked : Action → NodeMeta N → Event N
  answered : (place : ℕ) → Reply → Event N
  snapshot : List (NodeMeta N) → Event N

module _ {N : Type 0} where
  unfoldable pub clicked_on : Action → NodeMeta N → RaftView N → RaftView N
  clicked_on action node v =
      if enabled action node
      then record v {
        loop = EventLoop.step v.loop (EventLoop.start action node.node_id);
        ids = v.ids ++ node.node_id ∷ [];
      }
      else v

  -- What follows the wait of a call.
  unfoldable pub told : ℕ → Reply → Pending N → ℕ → RaftView N → RaftView N
  told place reply p id v = record {
    loop = EventLoop.step v.loop (EventLoop.answer place reply);
    events = push (line p.action id (outcome p.action reply)) v.events;
    ids = remove_at place v.ids;
  }

  abbrev pub answered_at : ℕ → Reply → Option (Pending N) → Option ℕ → RaftView N → RaftView N
  answered_at place reply (some p) (some id) v = told place reply p id v
  answered_at place reply p id v = v

  unfoldable pub step : Event N → RaftView N → RaftView N
  unfolding clicked_on told
  step (clicked action node) v = clicked_on action node v
  step (answered place reply) v =
      answered_at place reply (get_elem? v.loop.pending place) (get_elem? v.ids place) v
  step (snapshot nodes) v = record v { loop = EventLoop.step v.loop (EventLoop.snapshot nodes) }

  abbrev pub run : RaftView N → List (Event N) → RaftView N
  run v [] = v
  run v (e ∷ es) = run (step e v) es

  -- The view when it is shown, on a store with no waiting call of its own.
  unfoldable pub mounted : Loop N → RaftView N
  mounted l = record { loop = record l { pending = [] }; events = initialized ∷ []; ids = [] }
