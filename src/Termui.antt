-- ===== src/Termui.antt =====
-- The widgets of termui/: the scrolling table, the filter entry, the graphs and the sparklines.
pub mod Geometry
pub mod Table
pub mod Entry
pub mod Numbered
pub mod LineGraph
pub mod Sparkline
