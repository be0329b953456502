-- ===== src/Prelude/Words.antt =====
-- The wrap-around of the machine's unsigned integers.
use Prim.Native.Nat.{ℕ, ◌%◌, ◌^◌}

abbrev pub wrap8 : ℕ → ℕ
wrap8 x = x % 2 ^ 8

abbrev pub wrap16 : ℕ → ℕ
wrap16 x = x % 2 ^ 16

abbrev pub wrap32 : ℕ → ℕ
wrap32 x = x % 2 ^ 32

abbrev pub wrap64 : ℕ → ℕ
wrap64 x = x % 2 ^ 64
