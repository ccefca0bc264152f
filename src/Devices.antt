-- ===== src/Devices.antt =====
-- The sources of data of devices/.
pub mod Registry
pub mod Remote
pub mod Nvidia
