-- ===== src/E2e.antt =====
-- The support code of the browser journeys, e2e/support.
pub mod Reporter
pub mod Manifest
pub mod Masking
