-- ===== src/App/Announced.antt =====
-- What a render of the page announces of the nodes that the operator holds down.
use mathlib.Core.List.{Mem}
use vault_vk.Common.{ℕ, ◌≡◌, ◌⊎◌, List, All}
use vault_vk.Notifications.Centre.{Notice, NotificationItem, Stamp, item}
use vault_vk.Notifications.History as History
use vault_vk.App.Defs.{App}
use vault_vk.Notifications.Fair.{Fair}

module _ {N : Type 0} (stamp : ℕ → Stamp N) where
  -- An item of the list that stood in it before, or that was made of a fair notice.
  abbrev IsOldOrFair : App N → NotificationItem N → Type 0
  IsOldOrFair a it =
      let s = a.feed.console.store in
      Mem it a.bell.notifications
      ⊎ (n : Notice) × Fair s.forced_down_node_ids s.ws_status s.nodes n
        × (k : ℕ) × (it ≡ item (stamp k) n)

  abbrev pub IsHonest : App N → List (NotificationItem N) → Type 0
  IsHonest a items = All (IsOldOrFair a) items
