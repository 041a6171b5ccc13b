-- ===== src/Reader.antt =====
-- docs/src/App.tsx
pub mod Preferences
pub mod Links
pub mod Search
pub mod State
pub mod View
mod Tests
