-- ===== src/Gallery.antt =====
-- app/frontend/components/features/gallery and the page that shows it, app/frontend/pages/Gallery.tsx.
pub mod Entry
pub mod Entries
pub mod Page
