-- ===== src/Dashboards/Buttons.antt =====
-- The calls of a node card against what its buttons show.
use vault_vk.Common.{◌≡◌, refl, List, [], ◌∷◌, arith, if◌then◌else◌}
use vault_vk.Store.Defs.{NodeMeta}
use vault_vk.Store.Actions.{kill, restart}
use vault_vk.Dashboards.Card.{Button, NodeCard, Event, clicked, over, given, step, mounted, run}

-- The button is shown as pending exactly while one call waits, and it never has two.
abbrev pub IsSingle : Button → Type 0
IsSingle b = b.calls ≡ (if b.pending then 1 else 0)

module _ {N : Type 0} where
  abbrev pub AreSingle : NodeCard N → Type 0
  AreSingle c = IsSingle c.killing × IsSingle c.restarting

  step-AreSingle : (e : Event N) (c : NodeCard N) → AreSingle c → AreSingle (step e c)
  unfolding step
  step-AreSingle (clicked kill) c h = ground arith
  step-AreSingle (clicked restart) c h = ground arith
  step-AreSingle (over kill) c h = ground arith
  step-AreSingle (over restart) c h = ground arith
  step-AreSingle (given node) c h = h

  run-AreSingle : (es : List (Event N)) (c : NodeCard N) → AreSingle c → AreSingle (run c es)
  run-AreSingle [] c h = h
  run-AreSingle (e ∷ es) c h = run-AreSingle es (step e c) (step-AreSingle e c h)

  -- From the first render of a card, after any clicks, ends of calls and renders with other nodes: each
  -- button is shown as pending exactly while a call of it waits, and never has more than one call.
  pub mounted-AreSingle :
      (node : NodeMeta N) (es : List (Event N)) → AreSingle (run (mounted node) es)
  unfolding mounted
  mounted-AreSingle node es = run-AreSingle es (mounted node) (refl, refl)
