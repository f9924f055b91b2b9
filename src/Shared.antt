-- ===== src/Shared.antt =====
-- The components of app/frontend/components/shared.
pub mod Initials
pub mod Profile
pub mod Notifications
