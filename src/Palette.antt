-- ===== src/Palette.antt =====
-- The command palette of `App` in frontend/src/App.tsx: the query, the highlighted result, the recent
-- pages, and the keys.
pub mod Defs
pub mod Keys
pub mod Recent
pub mod Highlight
pub mod Shown
pub mod Enter
mod Examples
