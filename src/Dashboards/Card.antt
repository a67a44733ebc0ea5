-- ===== src/Dashboards/Card.antt =====
-- components/NodeCard.tsx: the calls of its two buttons, and what it shows of a node.
use vault_vk.Common.{
  ℕ, zero, suc, Bool, true, false, not, ◌&&◌, ◌||◌, List, [], ◌∷◌, ◌++◌, if◌then◌else◌,
}
use vault_vk.Text.{Text, codes}
use vault_vk.Text.Decimal.{show}
use vault_vk.Numbers.Defs.{Arith}
use vault_vk.Store.Defs.{NodeMeta}
use vault_vk.Store.Actions.{Action, kill, restart}
use vault_vk.Dashboards.{Printer}

-- One of the two buttons: whether its call is pending, and the calls that wait for the gateway.
pub record Button : Type 0 where
  pub pending : Bool
  pub calls : ℕ

pub record NodeCard (N : Type 0) : Type 0 where
  pub node : NodeMeta N
  pub killing : Button
  pub restarting : Button

-- A click, the end of a call (a reply or an exception, which `finally` treats alike), and a render
-- with other properties.
pub data Event (N : Type 0) : Type 0 where
  clicked over : Action → Event N
  given : NodeMeta N → Event N

abbrev called : Button → Button
called b = record { pending = true; calls = suc b.calls }

-- An end without a call cannot be.
abbrev finished : ℕ → Button → Button
finished zero b = b
finished (suc n) b = record { pending = false; calls = n }

module _ {N : Type 0} where
  -- Where the call goes.
  unfoldable pub call_path : Action → NodeMeta N → Text
  call_path kill node = codes "/api/nodes/" ++ show node.node_id ++ codes "/kill"
  call_path restart node = codes "/api/nodes/" ++ show node.node_id ++ codes "/restart"

  unfoldable pub disabled : Action → NodeCard N → Bool
  disabled kill c = not c.node.healthy || c.killing.pending
  disabled restart c = c.node.healthy || c.restarting.pending

  unfoldable pub label : Action → NodeCard N → Text
  label kill c = if c.killing.pending then codes "Killing..." else codes "Kill"
  label restart c = if c.restarting.pending then codes "Restarting..." else codes "Restart"

  unfoldable pub step : Event N → NodeCard N → NodeCard N
  unfolding disabled
  step (clicked kill) c = if disabled kill c then c else record c { killing = called c.killing }
  step (clicked restart) c =
      if disabled restart c then c else record c { restarting = called c.restarting }
  step (over kill) c = record c { killing = finished c.killing.calls c.killing }
  step (over restart) c = record c { restarting = finished c.restarting.calls c.restarting }
  step (given node) c = record c { node = node }

  unfoldable pub mounted : NodeMeta N → NodeCard N
  mounted node = record {
    node = node;
    killing = record { pending = false; calls = 0 };
    restarting = record { pending = false; calls = 0 };
  }

  abbrev pub run : NodeCard N → List (Event N) → NodeCard N
  run c [] = c
  run c (e ∷ es) = run (step e c) es

  -- Whether the card has the badge of the leader.
  unfoldable pub has_badge : NodeMeta N → Bool
  has_badge node = node.is_leader && node.healthy

-- The four figures of the card.
module _ (F : Arith) (p : Printer F.Num) where
  open F use {Num, nat}

  unfoldable pub metrics : NodeMeta Num → List (Text × Text)
  metrics node =
      (codes "latency", p.fixed 0 node.latency_us ++ codes " us")
      ∷ (codes "rep lag", p.fixed 1 node.lag_ms ++ codes " ms")
      ∷ (codes "SET ops", p.locale (nat node.ops_set))
      ∷ (codes "GET ops", p.locale (nat node.ops_get))
      ∷ []
