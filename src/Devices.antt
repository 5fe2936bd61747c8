-- ===== src/Devices.antt =====
-- devices/: the drivers that the library registers.
pub mod Saturn
pub mod Ram
pub mod Rle
pub mod ActionReplay
