-- ===== src/Notifications.antt =====
-- The notification centre of frontend/src/App.tsx: what is announced, and the list that holds it.
pub mod Centre
pub mod Watch
pub mod Announced
pub mod History
pub mod Shown
pub mod Fair
mod Examples
