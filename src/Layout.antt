-- ===== src/Layout.antt =====
-- The layout: the text that describes it, and the grid of widgets that is built from it (layout/).
pub mod Parser
pub mod Rows
pub mod Widgets
mod Tests
