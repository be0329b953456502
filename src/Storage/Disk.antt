-- ===== src/Storage/Disk.antt =====
-- The disk in memory, kernel/src/storage/storage.c, and the registered device of
-- kernel/src/storage/block/block.c. The array `fake_disk` is a part of the memory of bytes, and its
-- address is an argument.
pub mod Laws
mod Tests
use bethany.Prelude.{ℕ, ◌+◌, ◌*◌, Bool, true, false, leb, ◌==◌, if◌then◌else◌}
use bethany.Text.Strings.{memcpy, memset}

abbrev pub storage_block_size : ℕ
storage_block_size = 4096

abbrev pub storage_block_count : ℕ
storage_block_count = 16384

unfoldable pub storage_init : ℕ → (ℕ → ℕ) → Bool × (ℕ → ℕ)
storage_init fake_disk m = (true, memset m fake_disk 0 (storage_block_count * storage_block_count))

unfoldable pub storage_read : ℕ → ℕ → ℕ → (ℕ → ℕ) → Bool × (ℕ → ℕ)
storage_read fake_disk block buffer m =
    if leb storage_block_count block
    then (false, m)
    else (true, memcpy m buffer (fake_disk + (block + storage_block_size)) storage_block_size)

unfoldable pub storage_write : ℕ → ℕ → ℕ → (ℕ → ℕ) → Bool × (ℕ → ℕ)
storage_write fake_disk block buffer m =
    if leb storage_block_count block
    then (false, m)
    else (true, memcpy m (fake_disk + (block + storage_block_size)) buffer storage_block_size)

-- The static `current`, before and after.
unfoldable pub block_register : ℕ → ℕ → Bool × ℕ
block_register device current = if device == 0 then (false, current) else (true, device)
