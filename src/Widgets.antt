-- ===== src/Widgets.antt =====
-- The widgets of widgets/.
pub mod Proc
pub mod Net
pub mod Temp
pub mod Disk
