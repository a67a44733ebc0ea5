-- ===== src/Dashboards.antt =====
-- What the two dashboards show: `DashboardView` of frontend/src/App.tsx, and pages/Dashboard.tsx with
-- the components that it places.
pub mod Overview
pub mod Mission
pub mod Charts
pub mod Ticks
pub mod Card
pub mod Compare
pub mod Buttons
mod Examples
-- `toLocaleString`, `toFixed`, template literals and `toLocaleTimeString` of a number: what the
-- browser prints.
use vault_vk.Common.{ℕ, List, [], ◌∷◌, Option, none, some, get_elem?, length}
use vault_vk.Text.{Text}

pub record Printer (N : Type 0) : Type 0 where
  pub locale : N → Text
  pub fixed : ℕ → N → Text
  pub plain : N → Text
  pub time : N → Text

module _ {ℓ} {A : Type ℓ} where
  -- `history[history.length - 1]`
  abbrev pub latest : List A → Option A
  latest [] = none
  latest (x ∷ xs) = get_elem? (x ∷ xs) (length xs)
