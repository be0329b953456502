-- ===== src/Video.antt =====
-- The screen: kernel/src/video/graphics.c and kernel/src/video/terminal.c. The frame buffer is a memory
-- of 32-bit words by their index, and the glyphs of kernel/src/video/font.c are an argument. The signed
-- numbers of the terminal are integers: its sums are taken not to leave 64 bits.
pub mod Integers
pub mod Cursor
mod Tests
use bethany.Prelude.{
  ℕ, zero, suc, ◌+◌, ◌-◌, ◌*◌, ◌/◌, ◌%◌, ◌^◌, Bool, true, false, ◌&&◌, ◌||◌, List, [], ◌∷◌, bit_and,
  ltb, leb, ◌==◌, if◌then◌else◌, update, wrap8, wrap64,
}
use bethany.Video.Integers.{
  ℤ, pos, negsuc, ◌+ℤ◌, scale, signed, unsigned, int64, floor_div, floor_mod,
}

pub record Graphics : Type 0 where
  pub address : ℕ
  pub width : ℕ
  pub height : ℕ
  pub pitch : ℕ

pub record Terminal : Type 0 where
  pub cursor_x : ℕ
  pub cursor_y : ℕ
  pub foreground_color : ℕ
  pub background_color : ℕ

abbrev pub font_width : ℕ
font_width = 8

abbrev pub font_height : ℕ
font_height = 16

pub graphics_init : ℕ → ℕ → ℕ → ℕ → Graphics
graphics_init fb pitch y x = record { address = fb; width = x; height = y; pitch = pitch }

pub put_pixel : Graphics → ℕ → ℕ → ℕ → (ℕ → ℕ) → ℕ → ℕ
put_pixel g y x color pixels =
    if ltb y g.height && ltb x g.width
    then update pixels (wrap64 (y * (g.pitch / 4) + x)) color
    else pixels

-- The inner and the outer loop of `clear`, the last round outermost.
pub clear_row : Graphics → ℕ → ℕ → ℕ → (ℕ → ℕ) → ℕ → ℕ
clear_row g color i zero pixels = pixels
clear_row g color i (suc j) pixels =
    update (clear_row g color i j pixels) (wrap64 (i * (g.pitch / 4) + j)) color

pub clear_rows : Graphics → ℕ → ℕ → (ℕ → ℕ) → ℕ → ℕ
clear_rows g color zero pixels = pixels
clear_rows g color (suc i) pixels = clear_row g color i g.width (clear_rows g color i pixels)

pub clear : Graphics → ℕ → (ℕ → ℕ) → ℕ → ℕ
clear g color pixels = clear_rows g color g.height pixels

-- The loops of `draw_char`; `bits` is a row of the glyph.
pub draw_row : Graphics → Terminal → ℕ → ℕ → ℕ → ℕ → (ℕ → ℕ) → ℕ → ℕ
draw_row g t y width bits zero pixels = pixels
draw_row g t y width bits (suc j) pixels =
    let before = draw_row g t y width bits j pixels in
    if bit_and bits (2 ^ (7 - j)) == 0
    then put_pixel g y (wrap64 (width + j)) t.background_color before
    else put_pixel g y (wrap64 (width + j)) t.foreground_color before

pub draw_rows : Graphics → Terminal → ℕ → ℕ → (ℕ → ℕ) → ℕ → (ℕ → ℕ) → ℕ → ℕ
draw_rows g t height width glyph zero pixels = pixels
draw_rows g t height width glyph (suc i) pixels =
    draw_row g t (wrap64 (height + i)) width (glyph i) 8 (draw_rows g t height width glyph i pixels)

pub draw_char : (ℕ → ℕ → ℕ) → Graphics → Terminal → ℕ → ℕ → ℕ → (ℕ → ℕ) → ℕ → ℕ
draw_char font g t height width c pixels = draw_rows g t height width (font (wrap8 c)) 16 pixels

pub terminal_init : ℕ → ℕ → Terminal
terminal_init c bgc = record {
  cursor_x = 0;
  cursor_y = 0;
  foreground_color = c;
  background_color = bgc;
}

pub terminal_clear : Graphics → Terminal → (ℕ → ℕ) → ℕ → ℕ
terminal_clear g t pixels = clear g t.background_color pixels

pub terminal_move_cursor : Graphics → ℤ → ℤ → Terminal → Terminal
terminal_move_cursor g y x t =
    let new_x = int64 (signed t.cursor_x +ℤ int64 (scale x font_width)) in
    let lines = int64 (y +ℤ floor_div new_x g.width) in
    let new_y = int64 (signed t.cursor_y +ℤ int64 (scale lines font_height)) in
    record t {
      cursor_x = unsigned (floor_mod new_x g.width);
      cursor_y = unsigned (floor_mod new_y g.height);
    }

pub terminal_set_position : Graphics → ℕ → ℕ → Terminal → Terminal
terminal_set_position g y x t =
    if ltb g.width x || ltb g.height y then t else record t { cursor_x = x; cursor_y = y }

-- 10, 13, 9 and 8 are '\n', '\r', '\t' and '\b'; a tab goes to `(col + 4) & ~3`.
pub terminal_putchar : (ℕ → ℕ → ℕ) → Graphics → ℕ → Terminal × (ℕ → ℕ) → Terminal × (ℕ → ℕ)
terminal_putchar font g c (t, pixels) =
    let col = t.cursor_x / font_width in
    if c == 10
    then (terminal_move_cursor g (pos 1) (pos 0) (record t { cursor_x = 0 }), pixels)
    else if c == 13
    then (record t { cursor_x = 0 }, pixels)
    else if c == 9
    then (terminal_move_cursor g (pos 0) (pos ((col + 4) / 4 * 4 - col)) t, pixels)
    else if c == 8
    then (terminal_move_cursor g (pos 0) (negsuc 0) t, pixels)
    else (
      terminal_move_cursor g (pos 0) (pos 1) t,
      draw_char font g t t.cursor_y t.cursor_x c pixels,
    )

pub terminal_write : (ℕ → ℕ → ℕ) → Graphics → List ℕ → Terminal × (ℕ → ℕ) → Terminal × (ℕ → ℕ)
terminal_write font g [] s = s
terminal_write font g (c ∷ cs) s = terminal_write font g cs (terminal_putchar font g c s)
