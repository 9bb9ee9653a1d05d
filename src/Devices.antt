-- ===== src/Devices.antt =====
-- pintos/src/devices: the block layer.
pub mod Block
