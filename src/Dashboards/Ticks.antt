-- ===== src/Dashboards/Ticks.antt =====
-- The labels on the vertical axis of components/OpsChart.tsx, for a tick that is a whole number. At
-- the chart's magnitudes `v / 1000` is half a whole exactly where it is so of the numbers, and
-- `toFixed(0)` takes the larger of the two nearest.
use vault_vk.Common.{ℕ, ◌+◌, ◌*◌, ◌/◌, ◌≤◌, ◌<◌, ◌≡◌, leb, ap, ◌++◌, if◌then◌else◌, arith}
use vault_vk.Text.{Text, codes}
use vault_vk.Text.Decimal.{show}

abbrev to_fixed_thousands : ℕ → Text
to_fixed_thousands v = show ((v + 500) / 1000)

unfoldable pub tick_label : ℕ → Text
tick_label v = if leb 1000 v then to_fixed_thousands v ++ codes "K" else show v

-- From a thousand on, a label names the thousands next to its tick, at most 500 away.
tick_label-near :
    (v : ℕ)
    → 1000 ≤ v
    → (k : ℕ) × (tick_label v ≡ show k ++ codes "K") × (k * 1000 ≤ v + 500) × (v < k * 1000 + 500)
unfolding tick_label
tick_label-near v h = ((v + 500) / 1000, ground arith, omega arith, omega arith)

-- Half a thousand and the next thousand have one label, so an axis that goes up by 500 shows each
-- label from `2K` on twice.
tick_label_of_half : (k : ℕ) → 1 ≤ k → tick_label (k * 1000 + 500) ≡ tick_label (k * 1000 + 1000)
unfolding tick_label
tick_label_of_half k h =
    let e : (k * 1000 + 500 + 500) / 1000 ≡ (k * 1000 + 1000 + 500) / 1000 = omega arith in
    ground (arith, ap (λ n. show n ++ codes "K") e)
