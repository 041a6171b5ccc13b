-- ===== src/Documents.antt =====
-- docs/src/documents.tsx
pub mod Patterns
pub mod Source
pub mod Roadmap
pub mod Catalog
pub mod Tests
