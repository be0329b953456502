-- ===== src/Text/Digits.antt =====
-- What kernel/src/print_and_stuff/print.c prints denotes the number.
use bethany.Prelude.{
  ℕ, zero, suc, ◌+◌, ◌-◌, ◌*◌, ◌/◌, ◌%◌, ◌^◌, ◌≤◌, ◌<◌, ◌≡◌, inl, inr, refl, List, [], ◌∷◌, ◌++◌,
  bit_and, ltb, leb, if◌then◌else◌, arith, ◌∙◌, ap, Bool-cases, bit_and-field_mask, length,
}
use native.Mathlib.Nat.{pow-suc}
use bethany.Text.{print_uint, hex, hex_loop}

-- The number that decimal characters denote, going on from `acc`.
abbrev pub decimal : ℕ → List ℕ → ℕ
decimal acc [] = acc
decimal acc (c ∷ cs) = decimal (acc * 10 + (c - b'0')) cs

decimal-last :
    (acc : ℕ) (cs : List ℕ) (c : ℕ)
    → decimal acc (cs ++ (c ∷ [])) ≡ decimal acc cs * 10 + (c - b'0')
decimal-last acc [] c = refl
decimal-last acc (x ∷ cs) c = decimal-last (acc * 10 + (x - b'0')) cs c

print_uint-decimal : (n val : ℕ) → val < 10 ^ suc n → decimal 0 (print_uint n val) ≡ val
unfolding print_uint
print_uint-decimal zero val h = omega arith
print_uint-decimal (suc n) val h = elim (Bool-cases (leb 10 val)) [
  | inl big ↦
      let rest : decimal 0 (print_uint n (val / 10)) ≡ val / 10 =
        print_uint-decimal n (val / 10) (omega (arith, pow-suc 10 (suc n))) in
      rw big (decimal-last 0 (print_uint n (val / 10)) (b'0' + val % 10) ∙ omega (arith, rest))
  | inr small ↦ rw small (ground arith)
]

-- All characters are digits.
abbrev pub AllDigits : List ℕ → Type 0
AllDigits [] = Unit
AllDigits (c ∷ cs) = (b'0' ≤ c) × (c ≤ b'9') × AllDigits cs

AllDigits-last : (cs : List ℕ) (d : ℕ) → AllDigits cs → d < 10 → AllDigits (cs ++ ((b'0' + d) ∷ []))
AllDigits-last [] d all h = (omega arith, omega arith, tt)
AllDigits-last (c ∷ cs) d all h = (all.0, all.1, AllDigits-last cs d all.2 h)

print_uint-AllDigits : (n val : ℕ) → AllDigits (print_uint n val)
unfolding print_uint
print_uint-AllDigits zero val = (omega arith, omega arith, tt)
print_uint-AllDigits (suc n) val = elim (Bool-cases (leb 10 val)) [
  | inl big ↦ rw big (
      AllDigits-last (print_uint n (val / 10)) (val % 10) (print_uint-AllDigits n (val / 10))
        (omega arith))
  | inr small ↦ rw small (omega arith, omega arith, tt)
]

-- The first character is not a zero.
abbrev pub Leads : List ℕ → Type 0
Leads cs = (c : ℕ) × (rest : List ℕ) × (cs ≡ c ∷ rest) × (b'1' ≤ c)

print_uint-Leads : (n val : ℕ) → 0 < val → val < 10 ^ suc n → Leads (print_uint n val)
unfolding print_uint
print_uint-Leads zero val pos h = (b'0' + val % 10, [], refl, omega arith)
print_uint-Leads (suc n) val pos h = elim (Bool-cases (leb 10 val)) [
  | inl big ↦
      let (c, rest, e, high) =
        print_uint-Leads n (val / 10) (ground arith) (omega (arith, pow-suc 10 (suc n))) in
      (
        c,
        rest ++ ((b'0' + val % 10) ∷ []),
        rw big (ap (λ cs. cs ++ ((b'0' + val % 10) ∷ [])) e),
        high,
      )
  | inr small ↦ (b'0' + val % 10, [], rw small refl, ground arith)
]

-- With `n` calls of itself `print_uint` prints the decimal numeral of every number below
-- `10 ^ (n + 1)`: digits that denote the number, the first of them no zero, and one zero for 0.
pub print_uint_lem :
    (n val : ℕ)
    → val < 10 ^ suc n
    → (decimal 0 (print_uint n val) ≡ val)
      × AllDigits (print_uint n val)
      × ((0 < val → Leads (print_uint n val)) × (val ≡ 0 → print_uint n val ≡ b'0' ∷ []))
print_uint_lem n val h = (
  print_uint-decimal n val h,
  print_uint-AllDigits n val,
  (λ pos. print_uint-Leads n val pos h, print_uint_zero n val),
)
  where
    print_uint_zero : (n val : ℕ) → val ≡ 0 → print_uint n val ≡ b'0' ∷ []
    print_uint_zero zero val e = unfold print_uint in rw e refl
    print_uint_zero (suc n) val e = unfold print_uint in rw e refl

-- The nibble that a character of the buffer stands for.
abbrev pub nibble : ℕ → ℕ
nibble c = if ltb c 58 then c - b'0' else c - 55

-- The number in the buffer, the lowest nibble first.
abbrev pub hexadecimal : List ℕ → ℕ
hexadecimal [] = 0
hexadecimal (c ∷ cs) = nibble c + 2 ^ 4 * hexadecimal cs

nibble-hex : (x : ℕ) → x < 16 → nibble (hex x) ≡ x
unfolding hex
nibble-hex x h = ground arith

-- The loop of `print_hex_ex` ends after 16 rounds on a 64-bit number, stays within the buffer of 17
-- characters, and leaves the digits of the number in it: this holds for any `n` rounds and numbers
-- below `16 ^ n`.
pub hex_loop_lem :
    (n value : ℕ)
    → value < 16 ^ n
    → (hexadecimal (hex_loop n value) ≡ value) × (length (hex_loop n value) ≤ n)
unfolding hex_loop
hex_loop_lem zero value h = (omega arith, omega arith)
hex_loop_lem (suc n) value h = elim (Bool-cases (ltb 0 value)) [
  | inl more ↦
      let (rest, short) = hex_loop_lem n (value / 2 ^ 4) (omega (arith, pow-suc 16 n)) in
      let low : bit_and value 0xf ≡ value % 16 = omega (arith, bit_and-field_mask 0 4 value) in
      let digit : nibble (hex (bit_and value 0xf)) ≡ value % 16 =
        ap (λ x. nibble (hex x)) low ∙ nibble-hex (value % 16) (omega arith) in
      rw more (omega (arith, digit, rest), omega (arith, short))
  | inr none_left ↦ rw none_left (ground arith, omega arith)
]
