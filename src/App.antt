-- ===== src/App.antt =====
-- The code of app/frontend/lib, hooks and entrypoints.
pub mod Entry
pub mod Mobile
pub mod Resolve
