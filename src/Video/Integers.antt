-- ===== src/Video/Integers.antt =====
-- Signed 64-bit numbers as integers, and the rounding divisions of kernel/src/video/terminal.c.
use bethany.Prelude.{
  ℕ, zero, suc, ◌+◌, ◌-◌, ◌*◌, ◌/◌, ◌%◌, ◌^◌, Bool, true, false, ltb, leb, if◌then◌else◌, wrap64,
}

pub data ℤ : Type 0 where
  pos : ℕ → ℤ
  negsuc : ℕ → ℤ

abbrev pub neg : ℕ → ℤ
neg zero = pos 0
neg (suc n) = negsuc n

-- The difference of two natural numbers.
unfoldable pub minus : ℕ → ℕ → ℤ
minus a b = if leb b a then pos (a - b) else negsuc (b - a - 1)

infix 60 ◌+ℤ◌
abbrev pub ◌+ℤ◌ : ℤ → ℤ → ℤ
pos a +ℤ pos b = pos (a + b)
pos a +ℤ negsuc b = minus a (b + 1)
negsuc a +ℤ pos b = minus b (a + 1)
negsuc a +ℤ negsuc b = negsuc (a + b + 1)

-- The product with a natural number.
abbrev pub scale : ℤ → ℕ → ℤ
scale (pos a) n = pos (a * n)
scale (negsuc a) n = neg ((a + 1) * n)

-- The two conversions between 64-bit words and signed numbers.
unfoldable pub signed : ℕ → ℤ
signed x = if ltb x (2 ^ 63) then pos x else negsuc (2 ^ 64 - 1 - x)

unfoldable pub unsigned : ℤ → ℕ
unsigned (pos a) = wrap64 a
unsigned (negsuc a) = 2 ^ 64 - 1 - wrap64 a

-- A sum or a product in 64 bits. C leaves it undefined where it does not fit; the machine wraps it.
unfoldable pub int64 : ℤ → ℤ
int64 z = signed (unsigned z)

-- `/` and `%` of C round towards zero.
abbrev pub quotient : ℤ → ℕ → ℤ
quotient (pos a) b = pos (a / b)
quotient (negsuc a) b = neg ((a + 1) / b)

abbrev pub remainder : ℤ → ℕ → ℤ
remainder (pos a) b = pos (a % b)
remainder (negsuc a) b = neg ((a + 1) % b)

abbrev pub is_negative : ℤ → Bool
is_negative (pos a) = false
is_negative (negsuc a) = true

unfoldable pub floor_div : ℤ → ℕ → ℤ
floor_div a b = if is_negative (remainder a b) then quotient a b +ℤ negsuc 0 else quotient a b

unfoldable pub floor_mod : ℤ → ℕ → ℤ
floor_mod a b = if is_negative (remainder a b) then remainder a b +ℤ pos b else remainder a b
