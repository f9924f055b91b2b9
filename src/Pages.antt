-- ===== src/Pages.antt =====
-- The pages of app/frontend/pages that a user sees; the page of the gallery stands with the gallery.
pub mod Error
pub mod Home
