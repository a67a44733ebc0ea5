-- ===== src/App.antt =====
-- `App` of frontend/src/App.tsx as a whole: the live feed, the store, the actions that wait and the
-- notifications, driven by the browser, the operator and React's renders.
pub mod Defs
pub mod Refines
pub mod Arrays
pub mod CaughtUp
pub mod Announced
pub mod Bounds
pub mod Connected
pub mod Downed
mod Examples
