-- ===== src/Storage/Disk/Laws.antt =====
-- What the disk of kernel/src/storage/storage.c gives back.
use bethany.Prelude.{
  ℕ, ◌+◌, ◌-◌, ◌*◌, ◌<◌, ◌≤◌, ◌≡◌, ◌⊎◌, inl, inr, false, ◌&&◌, leb, ltb, arith, if◌then◌else◌,
  Bool-cases, ◌∙◌, ap,
}
use bethany.Text.Strings.Laws.{memcpy_lem}
use bethany.Storage.Disk.{storage_block_size, storage_block_count, storage_read, storage_write}

-- A buffer of one block outside the array.
abbrev pub Apart : ℕ → ℕ → Type 0
Apart fake_disk p =
    (p + storage_block_size ≤ fake_disk)
    ⊎ (fake_disk + storage_block_count * storage_block_count ≤ p)

read_lem :
    (fake_disk b dest i : ℕ) (m : ℕ → ℕ)
    → b < storage_block_count
    → Apart fake_disk dest
    → i < storage_block_size
    → (storage_read fake_disk b dest m).1 (dest + i) ≡ m (fake_disk + (b + 4096) + i)
unfolding storage_read
read_lem fake_disk b dest i m hb a hi =
    let inside : leb 16384 b ≡ false = ground arith in
    rw inside ((memcpy_lem m dest (fake_disk + (b + 4096)) 4096 (ground arith)).0 i hi)

write_lem :
    (fake_disk b buffer i : ℕ) (m : ℕ → ℕ)
    → b < storage_block_count
    → Apart fake_disk buffer
    → i < storage_block_size
    → (storage_write fake_disk b buffer m).1 (fake_disk + (b + 4096) + i) ≡ m (buffer + i)
unfolding storage_write
write_lem fake_disk b buffer i m hb a hi =
    let inside : leb 16384 b ≡ false = ground arith in
    rw inside ((memcpy_lem m (fake_disk + (b + 4096)) buffer 4096 (ground arith)).0 i hi)

write_frame :
    (fake_disk b buffer x : ℕ) (m : ℕ → ℕ)
    → b < storage_block_count
    → Apart fake_disk buffer
    → ((x < fake_disk + (b + 4096)) ⊎ (fake_disk + (b + 4096) + 4096 ≤ x))
    → (storage_write fake_disk b buffer m).1 x ≡ m x
unfolding storage_write
write_frame fake_disk b buffer x m hb a out =
    let inside : leb 16384 b ≡ false = ground arith in
    rw inside ((memcpy_lem m (fake_disk + (b + 4096)) buffer 4096 (ground arith)).1 x out)

-- Block `b` read back after `b` and then `c` were written gives the bytes that were written to `c`
-- where the two blocks lie one over the other, less than 4096 blocks apart, and those that were
-- written to `b` elsewhere. The buffers lie outside the disk and both blocks are blocks of it.
pub storage_read-storage_write :
    (fake_disk b c buffer other dest i : ℕ) (m : ℕ → ℕ)
    → b < storage_block_count
    → c < storage_block_count
    → Apart fake_disk buffer
    → Apart fake_disk other
    → Apart fake_disk dest
    → i < storage_block_size
    → (storage_read fake_disk b dest
          (storage_write fake_disk c other (storage_write fake_disk b buffer m).1).1).1
        (dest + i)
      ≡ (if leb c (b + i) && ltb (b + i) (c + storage_block_size)
          then m (other + (b + i - c))
          else m (buffer + i))
storage_read-storage_write fake_disk b c buffer other dest i m hb hc a1 a2 a3 hi =
    let m1 = (storage_write fake_disk b buffer m).1 in
    let m2 = (storage_write fake_disk c other m1).1 in
    let at : (storage_read fake_disk b dest m2).1 (dest + i) ≡ m2 (fake_disk + (b + 4096) + i) =
      read_lem fake_disk b dest i m2 hb a3 hi in
    elim (Bool-cases (leb c (b + i) && ltb (b + i) (c + 4096))) [
      | inl over ↦
          let j : b + i - c < 4096 = ground arith in
          let place : fake_disk + (b + 4096) + i ≡ fake_disk + (c + 4096) + (b + i - c) =
            ground arith in
          rw over (
            at
            ∙ ap m2 place
            ∙ write_lem fake_disk c other (b + i - c) m1 hc a2 j
            ∙ write_frame fake_disk b buffer (other + (b + i - c)) m hb a1 (ground arith))
      | inr beside ↦ rw beside (
          at
          ∙ write_frame fake_disk c other (fake_disk + (b + 4096) + i) m1 hc a2 (ground arith)
          ∙ write_lem fake_disk b buffer i m hb a1 hi)
    ]
