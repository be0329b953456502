-- ===== src/Text/Tests.antt =====
-- Tests of kernel/src/print_and_stuff/print.c.
use bethany.Prelude.{ℕ, ◌<◌, ◌≡◌, refl, [], ◌∷◌, arith}
use bethany.Text.{print_uint, print_hex, print_hex_ex, backwards, hex, hex_loop}
use bethany.Text.Digits.{decimal, AllDigits, Leads, print_uint_lem}

printed :
    (print_uint 19 4096 ≡ b'4' ∷ b'0' ∷ b'9' ∷ b'6' ∷ [])
    × (print_hex 16 0x2f ≡ b'0' ∷ b'x' ∷ b'2' ∷ b'F' ∷ [])
unfolding print_uint print_hex print_hex_ex backwards hex_loop hex
printed = (refl, refl)

print_uint_lem_example :
    let max : ℕ = 0xffff_ffff_ffff_ffff in
    (decimal 0 (print_uint 19 max) ≡ max)
    × AllDigits (print_uint 19 max)
    × ((0 < max → Leads (print_uint 19 max)) × (max ≡ 0 → print_uint 19 max ≡ b'0' ∷ []))
print_uint_lem_example = print_uint_lem 19 0xffff_ffff_ffff_ffff (omega arith)
