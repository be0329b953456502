-- ===== src/Text/Console.antt =====
-- The functions of kernel/src/print_and_stuff/print.c that hand on what they get: the characters of a
-- string in the order of `terminal_write`.
use Prim.Native.Char.{code}
use Prim.Native.String.{String}
use bethany.Prelude.{ℕ, List, [], ◌∷◌}

unfoldable pub print_string : String → List ℕ
print_string String.[] = []
print_string (String.◌∷◌ c cs) = code c ∷ print_string cs

unfoldable pub print_char : ℕ → List ℕ
print_char c = c ∷ []
