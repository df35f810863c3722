-- ===== src/Widgets.antt =====
-- The console's own input widgets.
pub mod Select
