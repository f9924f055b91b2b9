-- ===== src/Spec.antt =====
-- The support code of the component tests, spec/frontend/support.
pub mod States
