-- ===== src/Disk.antt =====
-- Block storage: system/disk and system/device.
pub mod Cache
pub mod Partition
