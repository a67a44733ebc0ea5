-- ===== src/Explorers.antt =====
-- The two consoles for commands: the page of frontend/src/pages/Explorer.tsx, and `ExplorerView` of
-- frontend/src/App.tsx. Calls of `execute` overlap: each waits for the gateway on its own.
pub mod Page
pub mod PageLog
pub mod View
pub mod ViewLog
pub mod Form
pub mod Table
pub mod Rows
pub mod Menu
pub mod Guide
pub mod Drain
mod Examples
