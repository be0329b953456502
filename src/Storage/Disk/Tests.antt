-- ===== src/Storage/Disk/Tests.antt =====
-- The memory disk of kernel/src/storage/storage.c at address 10000000, the buffers in front of it.
use bethany.Prelude.{ℕ, ◌+◌, ◌≡◌, inl, arith, wrap8}
use bethany.Storage.Disk.{storage_read, storage_write}
use bethany.Storage.Disk.Laws.{storage_read-storage_write}

abbrev low_bytes : ℕ → ℕ
low_bytes x = wrap8 (x + x)

-- Byte 1 of block 5 is byte 0 of block 6.
storage_read-storage_write_example :
    (storage_read 10000000 5 0
        (storage_write 10000000 6 20003 (storage_write 10000000 5 8192 low_bytes).1).1).1
      (0 + 1)
    ≡ low_bytes 20003
storage_read-storage_write_example =
    storage_read-storage_write 10000000 5 6 8192 20003 0 1 low_bytes (omega arith) (omega arith)
      (inl (omega arith)) (inl (omega arith)) (inl (omega arith)) (omega arith)
