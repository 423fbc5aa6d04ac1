-- ===== src/App.antt =====
-- The application's lifecycle: src/app/app.c.
pub mod Boot
pub mod Monitor
