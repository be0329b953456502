-- ===== src/Storage.antt =====
-- Block devices: kernel/src/storage.
pub mod Nvme
pub mod Disk
