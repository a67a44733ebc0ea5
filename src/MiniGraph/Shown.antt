-- ===== src/MiniGraph/Shown.antt =====
-- What the mini graph draws and prints.
use vault_vk.Common.{Bool, true, false, List, ◌∷◌, ◌++◌, map, none, some, slice_last}
use vault_vk.Text.{Text, codes}
use vault_vk.Numbers.Defs.{Arith}
use vault_vk.Store.Defs.{MetricsPoint, WsStatus, connecting, opened, closed}
use vault_vk.Palette.Defs.{TabId, dashboard}
use vault_vk.Dashboards.{Printer, latest}
use vault_vk.MiniGraph.Defs.{Corner, bottom_right, bottom_left, top_right, top_left}

pub record MiniPoint (N : Type 0) : Type 0 where
  pub time : Text
  pub total : N

-- `isVisible`
unfoldable pub is_visible : TabId → Bool
is_visible dashboard = false
is_visible tab = true

unfoldable pub corner_class : Corner → Text
corner_class bottom_right = codes "bottom-5 right-5"
corner_class bottom_left = codes "bottom-5 left-5"
corner_class top_right = codes "top-28 right-5"
corner_class top_left = codes "top-28 left-5"

abbrev pub status_text : WsStatus → Text
status_text connecting = codes "connecting"
status_text opened = codes "open"
status_text closed = codes "closed"

module _ (F : Arith) (p : Printer F.Num) where
  open F use {Num, nat, add, mul}

  unfoldable pub mini_point : MetricsPoint Num → MiniPoint Num
  mini_point pt = record {
    time = p.time (mul pt.ts (nat 1000));
    total = add pt.set_ops_per_sec pt.get_ops_per_sec;
  }

  unfoldable pub mini_data : List (MetricsPoint Num) → List (MiniPoint Num)
  unfolding mini_point
  mini_data history = map mini_point (slice_last 20 history)

  unfoldable pub latest_total : List (MetricsPoint Num) → Num
  unfolding mini_data
  latest_total history = elim (latest (mini_data history)) [ none ↦ nat 0 | some m ↦ m.total ]

  -- The texts of the small and of the large form.
  unfoldable pub small_text : List (MetricsPoint Num) → Text
  unfolding latest_total
  small_text history = p.locale (latest_total history) ++ codes " ops/s"

  unfoldable pub large_text : WsStatus → List (MetricsPoint Num) → Text
  unfolding latest_total
  large_text ws_status history =
      codes "Status: "
      ++ status_text ws_status
      ++ codes " "
      ++ (0xb7 ∷ codes " ")
      ++ p.locale (latest_total history)
      ++ codes " ops/s"
