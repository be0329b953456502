-- ===== src/Text.antt =====
-- Printing numbers, kernel/src/print_and_stuff/print.c: what is printed is the list of the characters
-- that the terminal gets. Strings in memory are in the child Strings.
pub mod Console
pub mod Digits
pub mod Strings
mod Tests
use bethany.Prelude.{
  ℕ, zero, suc, ◌+◌, ◌/◌, ◌%◌, ◌^◌, Bool, true, List, [], ◌∷◌, ◌++◌, bit_and, leb, ltb, ◌==◌,
  if◌then◌else◌,
}

-- The calls of itself that `print_uint` may make come first.
unfoldable pub print_uint : ℕ → ℕ → List ℕ
print_uint zero val = (b'0' + val % 10) ∷ []
print_uint (suc n) val =
    let rest = print_uint n (val / 10) in
    (if leb 10 val then rest else []) ++ ((b'0' + val % 10) ∷ [])

-- The table `hex`.
unfoldable pub hex : ℕ → ℕ
hex nibble = if ltb nibble 10 then b'0' + nibble else 55 + nibble

-- The first loop of `print_hex_ex`: what it leaves in `buffer`, in the order of the index.
unfoldable pub hex_loop : ℕ → ℕ → List ℕ
hex_loop zero value = []
hex_loop (suc n) value =
    let rest = hex_loop n (value / 2 ^ 4) in
    if ltb 0 value then hex (bit_and value 0xf) ∷ rest else []

-- The second loop: the buffer from its end.
unfoldable pub backwards : List ℕ → List ℕ
backwards [] = []
backwards (c ∷ cs) = backwards cs ++ (c ∷ [])

unfoldable pub print_hex_ex : ℕ → ℕ → Bool → List ℕ
print_hex_ex rounds value prefix =
    (if prefix then b'0' ∷ b'x' ∷ [] else [])
    ++ (if value == 0 then b'0' ∷ [] else backwards (hex_loop rounds value))

unfoldable pub print_hex : ℕ → ℕ → List ℕ
print_hex rounds value = print_hex_ex rounds value true
