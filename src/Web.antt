-- ===== src/Web.antt =====
-- src/web: what guards the web viewer.
pub mod Auth
