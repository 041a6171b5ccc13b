-- ===== src/Ui.antt =====
-- The kit of interface parts (docs/src/components/ui, docs/src/hooks, docs/src/lib).
pub mod Styling
pub mod Sidebar
pub mod Kit
pub mod FieldError
pub mod Carousel
pub mod Chart
mod Tests
