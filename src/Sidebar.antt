-- ===== src/Sidebar.antt =====
-- The sidebar of app/frontend/components/layouts/sidebar/sidebar.tsx.
pub mod Parts
pub mod Provider
pub mod Session
pub mod View
pub mod MenuButton
pub mod Behaviour
pub mod Cookie
pub mod Toggle
pub mod Contract
pub mod Shown
