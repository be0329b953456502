-- ===== src/Memory/Pmm/Bitmap.antt =====
-- The laws of the bitmap, from tables of the byte operations.
use bethany.Prelude.{
  ℕ, ◌-◌, ◌/◌, ◌%◌, ◌^◌, ◌<◌, ◌≡◌, refl, Bool, true, false, not, ◌&&◌, arith, bit_and, bit_or, ltb,
  ◌==◌, if◌then◌else◌, passes, lookup_passes, update, inl, inr, Bool-cases, ltb→lt, ◌∙◌, ==_iff,
}
use bethany.Memory.Pmm.{bitmap_set, bitmap_clear, bitmap_test}

-- Whether the page with this number is in use.
abbrev pub in_use : (ℕ → ℕ) → ℕ → Bool
in_use bitmap bit = not (bitmap_test bitmap bit == 0)

abbrev bit_of : ℕ → ℕ → Bool
bit_of x k = not (bit_and x (2 ^ k) == 0)

-- Equality of Booleans.
abbrev iff : Bool → Bool → Bool
iff true b = b
iff false b = not b

iff→eq : (a b : Bool) → iff a b ≡ true → a ≡ b
iff→eq true true h = refl
iff→eq true false h = ground arith
iff→eq false true h = ground arith
iff→eq false false h = refl

abbrev set_law : ℕ → ℕ → ℕ → Bool
set_law k j x =
    iff (bit_of (bit_or x (2 ^ k)) j) (if k == j then true else bit_of x j)
    && ltb (bit_or x (2 ^ k)) 256

abbrev clear_law : ℕ → ℕ → ℕ → Bool
clear_law k j x =
    iff (bit_of (bit_and x (255 - 2 ^ k)) j) (if k == j then false else bit_of x j)
    && ltb (bit_and x (255 - 2 ^ k)) 256

abbrev tabulated : (ℕ → ℕ → ℕ → Bool) → Bool
tabulated law = passes (λ k. passes (λ j. passes (law k j) 256) 8) 8

set_table : tabulated set_law ≡ true
unfolding passes
set_table = refl

clear_table : tabulated clear_law ≡ true
unfolding passes
clear_table = refl

lookup :
    (law : ℕ → ℕ → ℕ → Bool) (k j x : ℕ)
    → tabulated law ≡ true
    → k < 8
    → j < 8
    → x < 256
    → law k j x ≡ true
lookup law k j x table hk hj hx = lookup_passes (law k j) 256 hx (
    lookup_passes (λ j. passes (law k j) 256) 8 hj
      (lookup_passes (λ k. passes (λ j. passes (law k j) 256) 8) 8 hk table))

set_law_lem : (k j x : ℕ) → k < 8 → j < 8 → x < 256 → set_law k j x ≡ true
set_law_lem k j x = lookup set_law k j x set_table

clear_law_lem : (k j x : ℕ) → k < 8 → j < 8 → x < 256 → clear_law k j x ≡ true
clear_law_lem k j x = lookup clear_law k j x clear_table

&&-left : (a b : Bool) → (a && b) ≡ true → a ≡ true
&&-left a b h = ground arith

&&-right : (a b : Bool) → (a && b) ≡ true → b ≡ true
&&-right a b h = ground arith

module _ (k j x : ℕ) (hk : k < 8) (hj : j < 8) (hx : x < 256) where
  bit_of-set : bit_of (bit_or x (2 ^ k)) j ≡ (if k == j then true else bit_of x j)
  bit_of-set = iff→eq _ _ (&&-left _ _ (set_law_lem k j x hk hj hx))

  bit_of-clear : bit_of (bit_and x (255 - 2 ^ k)) j ≡ (if k == j then false else bit_of x j)
  bit_of-clear = iff→eq _ _ (&&-left _ _ (clear_law_lem k j x hk hj hx))

  set-lt : bit_or x (2 ^ k) < 256
  set-lt = ltb→lt _ _ (&&-right _ _ (set_law_lem k j x hk hj hx))

  clear-lt : bit_and x (255 - 2 ^ k) < 256
  clear-lt = ltb→lt _ _ (&&-right _ _ (clear_law_lem k j x hk hj hx))

abbrev pub IsBytes : (ℕ → ℕ) → Type 0
IsBytes bitmap = (i : ℕ) → bitmap i < 256

module _ (bitmap : ℕ → ℕ) (bit j : ℕ) where
  -- A new value of the byte that differs in one bit changes the page of that bit, and no other.
  in_use-update :
      (y : ℕ) (flag : Bool)
      → bit_of y (j % 8) ≡ (if bit % 8 == j % 8 then flag else bit_of (bitmap (bit / 8)) (j % 8))
      → in_use (update bitmap (bit / 8) y) j ≡ (if bit == j then flag else in_use bitmap j)
  unfolding bitmap_test
  in_use-update y flag law = elim (Bool-cases (bit / 8 == j / 8)) [
    | inl same ↦
        let e = (==_iff (bit / 8) (j / 8)).0 same in rw same (law ∙ rw (e, same_bit bit j e))
    | inr other ↦ rw (other, differ bit j other)
  ]
    where
      same_bit : (a b : ℕ) → a / 8 ≡ b / 8 → (a % 8 == b % 8) ≡ (a == b)
      same_bit a b h = ground arith

      differ : (a b : ℕ) → (a / 8 == b / 8) ≡ false → (a == b) ≡ false
      differ a b h = ground arith

module _ (bitmap : ℕ → ℕ) (b : IsBytes bitmap) (bit : ℕ) where
  pub bitmap_set-IsBytes : IsBytes (bitmap_set bitmap bit)
  unfolding bitmap_set
  bitmap_set-IsBytes i =
      ground (arith, b i, set-lt (bit % 8) 0 (bitmap (bit / 8)) (omega arith) (omega arith) (b _))

  pub bitmap_clear-IsBytes : IsBytes (bitmap_clear bitmap bit)
  unfolding bitmap_clear
  bitmap_clear-IsBytes i =
      ground (arith, b i, clear-lt (bit % 8) 0 (bitmap (bit / 8)) (omega arith) (omega arith) (b _))

  -- Setting a bit marks that page, and no other.
  pub in_use-bitmap_set :
      (j : ℕ) → in_use (bitmap_set bitmap bit) j ≡ (if bit == j then true else in_use bitmap j)
  unfolding bitmap_set
  in_use-bitmap_set j =
      in_use-update bitmap bit j _ true
        (bit_of-set (bit % 8) (j % 8) (bitmap (bit / 8)) (omega arith) (omega arith) (b _))

  -- Clearing a bit frees that page, and no other.
  pub in_use-bitmap_clear :
      (j : ℕ) → in_use (bitmap_clear bitmap bit) j ≡ (if bit == j then false else in_use bitmap j)
  unfolding bitmap_clear
  in_use-bitmap_clear j =
      in_use-update bitmap bit j _ false
        (bit_of-clear (bit % 8) (j % 8) (bitmap (bit / 8)) (omega arith) (omega arith) (b _))
