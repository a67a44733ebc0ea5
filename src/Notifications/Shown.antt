-- ===== src/Notifications/Shown.antt =====
-- What the bell and the list of notifications show.
use vault_vk.Common.{
  ℕ, ◌+◌, ◌≡◌, ap, Bool, false, not, List, [], ◌∷◌, map, Option, none, some, ltb, length, arith,
  filter, if◌then◌else◌,
}
use vault_vk.Text.{Text, codes}
use vault_vk.Text.Decimal.{show}
use vault_vk.Notifications.Centre.{
  NotificationLevel, info, success, warn, error, NotificationItem, Stamp, unread_from, unread_count,
  unread_count-mark_read,
}
use vault_vk.Notifications.History as History

-- The badge on the bell, if there is one.
unfoldable pub badge : ℕ → Option Text
badge unread_count =
    if ltb 0 unread_count
    then some (if ltb 9 unread_count then codes "9+" else show unread_count)
    else none

unfoldable pub level_class : NotificationLevel → Text
level_class success = codes "bg-emerald-400"
level_class warn = codes "bg-amber-400"
level_class error = codes "bg-rose-400"
level_class info = codes "bg-sky-400"

-- A row of the list: the dot, the texts, and whether it is drawn as new.
pub record Row : Type 0 where
  pub dot : Text
  pub title : Text
  pub detail : Text
  pub is_new : Bool

module _ {N : Type 0} where
  abbrev row : NotificationItem N → Row
  row it = record {
    dot = level_class it.level;
    title = it.title;
    detail = it.detail;
    is_new = not it.read;
  }

  unfoldable pub rows : List (NotificationItem N) → List Row
  unfolding level_class
  rows items = map row items

  unread_from-rows :
      (n : ℕ) (items : List (NotificationItem N))
      → unread_from n items ≡ n + length (filter (λ r. r.is_new) (rows items))
  unfolding unread_from rows
  unread_from-rows n [] = omega arith
  unread_from-rows n (it ∷ items) =
      ground (arith, unread_from-rows n items, unread_from-rows (n + 1) items)

  -- The badge counts the rows that are drawn as new: it is there exactly if there are some, with their
  -- number up to nine and `9+` above.
  pub badge-rows :
      (items : List (NotificationItem N))
      → badge (unread_count items) ≡ badge (length (filter (λ r. r.is_new) (rows items)))
  unfolding unread_count
  badge-rows items = ap badge (omega (arith, unread_from-rows 0 items))

  -- Opening the list takes the badge away.
  pub badge-toggled :
      (stamp : ℕ → Stamp N) (b : History.Bell N)
      → b.notifications_open ≡ false
      → badge (unread_count (History.step stamp History.toggled b).notifications) ≡ none
  unfolding History.step badge
  badge-toggled stamp b h = ground (arith, unread_count-mark_read b.notifications)
