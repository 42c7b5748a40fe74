-- ===== src/Dev.antt =====
-- Devices: src/devices.
pub mod Plic
pub mod Clint
pub mod Uart
pub mod Virtio
pub mod I2c
pub mod Pci
pub mod Syscon
