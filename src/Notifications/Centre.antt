-- ===== src/Notifications/Centre.antt =====
-- The list of notifications: `pushNotification`, the unread count, and the bell.
use vault_vk.Common.{
  ℕ, ◌+◌, ◌≡◌, refl, Bool, true, false, List, [], ◌∷◌, map, arith, take, if◌then◌else◌,
}
use vault_vk.Text.{Text}

pub data NotificationLevel : Type 0 where
  info success warn error : NotificationLevel

-- The arguments of `pushNotification`.
pub record Notice : Type 0 where
  pub title : Text
  pub detail : Text
  pub level : NotificationLevel

pub record NotificationItem (N : Type 0) : Type 0 where
  pub id : Text
  pub title : Text
  pub detail : Text
  pub ts : N
  pub level : NotificationLevel
  pub read : Bool

-- The clock and the random number of one call, as the `id` and `ts` that they make.
pub record Stamp (N : Type 0) : Type 0 where
  pub id : Text
  pub ts : N

module _ {N : Type 0} where
  abbrev pub item : Stamp N → Notice → NotificationItem N
  item stamp notice = record {
    id = stamp.id;
    title = notice.title;
    detail = notice.detail;
    ts = stamp.ts;
    level = notice.level;
    read = false;
  }

  unfoldable pub push_notification :
      Stamp N → Notice → List (NotificationItem N) → List (NotificationItem N)
  push_notification stamp notice prev = take 60 (item stamp notice ∷ prev)

  -- `notifications.reduce((count, item) => (item.read ? count : count + 1), 0)`
  unfoldable pub unread_from : ℕ → List (NotificationItem N) → ℕ
  unread_from count [] = count
  unread_from count (it ∷ items) = unread_from (if it.read then count else count + 1) items

  unfoldable pub unread_count : List (NotificationItem N) → ℕ
  unfolding unread_from
  unread_count items = unread_from 0 items

  -- The effect that runs when the list is shown.
  unfoldable pub mark_read : List (NotificationItem N) → List (NotificationItem N)
  mark_read items = map (λ it. if it.read then it else record it { read = true }) items

  unread_from-mark_read :
      (count : ℕ) (items : List (NotificationItem N)) → unread_from count (mark_read items) ≡ count
  unfolding unread_from mark_read
  unread_from-mark_read count [] = refl
  unread_from-mark_read count (it ∷ items) = ground (arith, unread_from-mark_read count items)

  pub unread_count-mark_read :
      (items : List (NotificationItem N)) → unread_count (mark_read items) ≡ 0
  unfolding unread_count
  unread_count-mark_read items = unread_from-mark_read 0 items
