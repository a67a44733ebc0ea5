-- ===== src/Failover/Shown.antt =====
-- What pages/Raft.tsx shows of a node.
use vault_vk.Common.{◌≡◌, refl, Bool, not, ◌++◌, if◌then◌else◌}
use vault_vk.Text.{Text, codes}
use vault_vk.Text.Decimal.{show}
use vault_vk.Store.Defs.{NodeMeta}

module _ {N : Type 0} where
  unfoldable pub card_class : NodeMeta N → Text
  card_class n =
      if n.is_leader
      then codes "border-sky-400/50 bg-sky-500/10"
      else if n.healthy
      then codes "border-white/10 bg-black/30"
      else codes "border-red-400/30 bg-red-500/10"

  unfoldable pub dot_class : NodeMeta N → Text
  dot_class n =
      if n.healthy
      then if n.is_leader then codes "bg-sky-400" else codes "bg-teal-400"
      else codes "bg-red-500"

  unfoldable pub title : NodeMeta N → Text
  title n =
      codes "Node "
      ++ show n.node_id
      ++ codes " "
      ++ (if n.is_leader then codes "(LEADER)" else codes "(follower)")

  unfoldable pub kill_disabled : NodeMeta N → Bool
  kill_disabled n = not n.healthy

  unfoldable pub restart_disabled : NodeMeta N → Bool
  restart_disabled n = n.healthy

  -- Of the two buttons of a node exactly one is enabled.
  pub one_enabled : (n : NodeMeta N) → kill_disabled n ≡ not (restart_disabled n)
  unfolding kill_disabled restart_disabled
  one_enabled n = refl
