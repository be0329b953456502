-- ===== src/Video/Tests.antt =====
-- The cursor of kernel/src/video/terminal.c on a screen of 640 by 480 pixels.
use bethany.Prelude.{◌≡◌, [], ◌∷◌, arith, refl}
use bethany.Video.Integers.{pos, negsuc, signed, unsigned, int64, floor_div, floor_mod, minus}
use bethany.Video.{Graphics, Terminal, terminal_move_cursor, terminal_write}
use bethany.Video.Cursor.{IsInside, Moved, terminal_move_cursor_lem, terminal_write-IsInside}

abbrev screen : Graphics
screen = record { address = 0; width = 640; height = 480; pitch = 2560 }

-- At the start of the second line.
abbrev second_line : Terminal
second_line = record { cursor_x = 0; cursor_y = 16; foreground_color = 255; background_color = 0 }

second_line-IsInside : IsInside screen second_line
second_line-IsInside = record { column = omega arith; row = omega arith }

-- A backspace goes to the end of the line before.
backspace : (terminal_move_cursor screen (pos 0) (negsuc 0) second_line).cursor_x ≡ 632
unfolding terminal_move_cursor int64 signed unsigned floor_div floor_mod minus
backspace = refl

terminal_move_cursor_lem_example :
    let t' = terminal_move_cursor screen (pos 0) (negsuc 0) second_line in
    IsInside screen t' × Moved screen (pos 0) (negsuc 0) second_line t'
terminal_move_cursor_lem_example =
    terminal_move_cursor_lem screen (omega arith) (omega arith) (omega arith) (omega arith) (pos 0)
      (negsuc 0) second_line (omega arith) (omega arith) second_line-IsInside

written-IsInside :
    IsInside screen (terminal_write (λ c i. 0) screen (65 ∷ 10 ∷ 8 ∷ []) (second_line, λ a. 0)).0
written-IsInside =
    terminal_write-IsInside screen (omega arith) (omega arith) (omega arith) (omega arith)
      (λ c i. 0) (65 ∷ 10 ∷ 8 ∷ []) (second_line, λ a. 0) second_line-IsInside
