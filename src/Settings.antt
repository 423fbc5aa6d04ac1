-- ===== src/Settings.antt =====
-- The persistent settings: src/settings/settings_store.c and the registry of settings_gen.h.
pub mod Registry
pub mod Store
pub mod Ranges
pub mod Records
pub mod Persist
mod Tests
