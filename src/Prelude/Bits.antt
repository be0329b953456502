-- ===== src/Prelude/Bits.antt =====
-- Masks and disjoint fields as arithmetic: `&` with a run of ones cuts a field out, and `|` of
-- fields that do not overlap is a sum.
use Prim.Native.Nat.{
  ℕ, zero, suc, ◌+◌, ◌-◌, ◌*◌, ◌/◌, ◌%◌, ◌^◌, ◌≤◌, ◌<◌, min, max, digits, bit_and, bit_or,
  bit_and-bitwise, bit_or-bitwise,
}
use mathlib.Core.Path.{◌≡◌, refl, ap, ◌∙◌}
use native.Mathlib.Nat.{pow-suc, one-le-pow, div-div-eq-div-mul, mod-eq-sub-mul-div, div-add-mod}
use native.Mathlib.Omega.{arith}

-- A run of `j` ones above `k` zeros.
abbrev pub field_mask : ℕ → ℕ → ℕ
field_mask zero j = 2 ^ j - 1
field_mask (suc k) j = field_mask k j * 2

abbrev cut : ℕ → ℕ → ℕ → ℕ
cut n a b = digits (λ y. 0) min n a b

cut-zero : (n a : ℕ) → cut n a 0 ≡ 0
cut-zero zero a = refl
cut-zero (suc n) zero = refl
cut-zero (suc n) (suc a) = omega (arith, cut-zero n (suc a / 2))

zero-cut : (n b : ℕ) → cut n 0 b ≡ 0
zero-cut zero b = refl
zero-cut (suc n) b = refl

zero-mod_pow : (j : ℕ) → 0 % 2 ^ j ≡ 0
zero-mod_pow j = omega (arith, one-le-pow j 2)

-- One more bit of a remainder by a power of two.
mod_pow-suc : (j a : ℕ) → a % 2 ^ suc j ≡ a / 2 % 2 ^ j * 2 + a % 2
mod_pow-suc j a = rw (double) (
    omega (
      arith,
      div-div-eq-div-mul a 2 (2 ^ j),
      mod-eq-sub-mul-div a (2 * 2 ^ j),
      mod-eq-sub-mul-div (a / 2) (2 ^ j),
      div-add-mod (a / 2) (2 ^ j),
      ap (λ t. 2 ^ j * t) (div-div-eq-div-mul a 2 (2 ^ j)),
    ))
  where
    double : 2 ^ suc j ≡ 2 * 2 ^ j
    double = omega (arith, pow-suc 2 j)

module _ (j : ℕ) where
  half_ones : (2 ^ suc j - 1) / 2 ≡ 2 ^ j - 1
  half_ones = omega (arith, pow-suc 2 j, one-le-pow j 2)

  low_one : (2 ^ suc j - 1) % 2 ≡ 1
  low_one = omega (arith, pow-suc 2 j, one-le-pow j 2)

cut-ones : (n a j : ℕ) → a ≤ n → cut n a (2 ^ j - 1) ≡ a % 2 ^ j
cut-ones zero zero j h = omega (arith, zero-mod_pow j)
cut-ones zero (suc a) j h = absurd (omega arith)
cut-ones (suc n) zero j h = omega (arith, zero-mod_pow j)
cut-ones (suc n) (suc a) zero h = omega (arith, cut-zero n (suc a / 2))
cut-ones (suc n) (suc a) (suc j) h =
    rw (half_ones j, low_one j)
      (omega (arith, mod_pow-suc j (suc a), cut-ones n (suc a / 2) j (omega arith)))

-- The field one bit further up, of twice the number.
field-suc : (k j a : ℕ) → a / 2 ^ suc k % 2 ^ j * 2 ^ suc k ≡ a / 2 / 2 ^ k % 2 ^ j * 2 ^ k * 2
field-suc k j a = rw (double, ← div-div-eq-div-mul) (omega arith)
  where
    double : 2 ^ suc k ≡ 2 * 2 ^ k
    double = omega (arith, pow-suc 2 k)

cut-field : (n a k j : ℕ) → a ≤ n → cut n a (field_mask k j) ≡ a / 2 ^ k % 2 ^ j * 2 ^ k
cut-field n a zero j h = ground (arith, cut-ones n a j h)
cut-field zero zero (suc k) j h = omega (arith, field-suc k j 0, cut-field zero 0 k j (omega arith))
cut-field zero (suc a) (suc k) j h = absurd (omega arith)
cut-field (suc n) zero (suc k) j h =
    omega (arith, field-suc k j 0, cut-field n 0 k j (omega arith), zero-cut n (field_mask k j))
cut-field (suc n) (suc a) (suc k) j h =
    rw (back, even)
      (omega (arith, field-suc k j (suc a), cut-field n (suc a / 2) k j (omega arith)))
  where
    back : field_mask k j * 2 / 2 ≡ field_mask k j
    back = omega arith

    even : field_mask k j * 2 % 2 ≡ 0
    even = omega arith

-- `&` with a mask of `j` ones above `k` zeros.
pub bit_and-field_mask : (k j a : ℕ) → bit_and a (field_mask k j) ≡ a / 2 ^ k % 2 ^ j * 2 ^ k
bit_and-field_mask k j a = bit_and-bitwise a (field_mask k j) ∙ cut-field a a k j (omega arith)

abbrev join : ℕ → ℕ → ℕ → ℕ
join n a b = digits (λ y. y) max n a b

join-zero : (n a : ℕ) → a ≤ n → join n a 0 ≡ a
join-zero zero zero h = refl
join-zero zero (suc a) h = absurd (omega arith)
join-zero (suc n) zero h = refl
join-zero (suc n) (suc a) h = omega (arith, join-zero n (suc a / 2) (omega arith))

join-fields : (n k a r : ℕ) → a ≤ n → a % 2 ^ k ≡ 0 → r < 2 ^ k → join n a r ≡ a + r
join-fields zero k zero r h e fits = omega arith
join-fields zero k (suc a) r h e fits = absurd (omega arith)
join-fields (suc n) k zero r h e fits = omega arith
join-fields (suc n) zero (suc a) r h e fits =
    let none_low : r ≡ 0 = omega arith in
    rw none_low (omega (arith, join-zero n (suc a / 2) (omega arith)))
join-fields (suc n) (suc k) (suc a) r h e fits = omega (
  arith,
  mod_pow-suc k (suc a),
  pow-suc 2 k,
  join-fields n k (suc a / 2) (r / 2) (omega arith) (omega (arith, mod_pow-suc k (suc a)))
      (omega (arith, pow-suc 2 k)),
)

-- `|` of a number whose low `k` bits are clear and one that fits these bits.
pub bit_or-fields : (k a r : ℕ) → a % 2 ^ k ≡ 0 → r < 2 ^ k → bit_or a r ≡ a + r
bit_or-fields k a r e fits = bit_or-bitwise a r ∙ join-fields a k a r (omega arith) e fits

join-low : (n k a r : ℕ) → r ≤ n → a % 2 ^ k ≡ 0 → r < 2 ^ k → join n r a ≡ a + r
join-low zero k a zero h e fits = omega arith
join-low zero k a (suc r) h e fits = absurd (omega arith)
join-low (suc n) k a zero h e fits = omega arith
join-low (suc n) zero a (suc r) h e fits = absurd (omega arith)
join-low (suc n) (suc k) a (suc r) h e fits = omega (
  arith,
  mod_pow-suc k a,
  pow-suc 2 k,
  join-low n k (a / 2) (suc r / 2) (omega arith) (omega (arith, mod_pow-suc k a))
      (omega (arith, pow-suc 2 k)),
)

-- The same with the low part first.
pub bit_or-low : (k a r : ℕ) → a % 2 ^ k ≡ 0 → r < 2 ^ k → bit_or r a ≡ a + r
bit_or-low k a r e fits = bit_or-bitwise r a ∙ join-low r k a r (omega arith) e fits
