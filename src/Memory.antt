-- ===== src/Memory.antt =====
-- The memory managers: kernel/src/memory.
pub mod Heap
pub mod Backing
pub mod Vmm
pub mod Pmm
pub mod Regions
pub mod Report
