-- ===== src/Mdx.antt =====
-- docs/src/mdx-components.tsx
pub mod Slug
pub mod Prose
pub mod Tasks
pub mod Hints
pub mod Resources
pub mod Mermaid
pub mod Tests
