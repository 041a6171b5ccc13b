-- ===== src/Reader/View.antt =====
-- What docs/src/App.tsx renders. The messages are the events of the reader's state, and two that only
-- change the view of the page: scrolling to an element.
pub mod Status
pub mod Sidebar
pub mod Page
pub mod Settings
pub mod Buttons
pub mod Opening
