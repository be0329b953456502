-- ===== src/Keyboard/Chars.antt =====
-- The characters of `getch_`, kernel/src/drivers/keyboard/keyboard_handler.c.
use bethany.Prelude.{ℕ, ◌+◌, ◌<◌, ◌≤◌, ◌≡◌, Bool, true, false, not, ◌||◌, arith, if◌then◌else◌}
use bethany.Keyboard.Tables.{
  KeyCode, key_none, key_code, keyboard_map_normal, keyboard_map_shift, keyboard_map_altgr,
}
use bethany.Keyboard.{
  Modifier, Input, is_silent, is_letter, plain_char, ctrl_char, alt_char, getch_,
}

abbrev pub shifted : Modifier → Bool
shifted m = m.lshift || m.rshift

abbrev pub ctrl : Modifier → Bool
ctrl m = m.lctrl || m.rctrl

abbrev pub alt : Modifier → Bool
alt m = m.lalt || m.ralt

abbrev pub exactly_one : Bool → Bool → Bool
exactly_one a b = if a then not b else b

-- The tables at a letter: 'a' and 'A' are 97 and 65, and the codes of the letters begin at 1.
record LetterChars (k : KeyCode) : Type 0 where
  lower : keyboard_map_normal k ≡ key_code k + 96
  upper : keyboard_map_shift k ≡ key_code k + 64
  audible : is_silent k ≡ false
  code : (1 ≤ key_code k) × (key_code k ≤ 26)

letter_chars : (k : KeyCode) → is_letter k ≡ true → LetterChars k
unfolding is_letter is_silent keyboard_map_normal keyboard_map_shift
letter_chars key_none h = ground arith
letter_chars _ h = ground arith

-- Without Ctrl and Alt a letter key gives the capital letter exactly when one of Shift and Caps Lock
-- is on, else the small letter.
pub getch_-letter :
    (s : Input)
    → is_letter s.last_keycode ≡ true
    → ctrl s.mods ≡ false
    → alt s.mods ≡ false
    → getch_ s
      ≡ key_code s.last_keycode + (if exactly_one (shifted s.mods) s.mods.caps_lock then 64 else 96)
unfolding getch_
getch_-letter s letter no_ctrl no_alt = ground (arith, letter_chars s.last_keycode letter)

-- With Ctrl and without Alt a letter key gives the control character of the letter's place in the
-- alphabet, whatever Shift and Caps Lock are.
pub getch_-ctrl_letter :
    (s : Input)
    → is_letter s.last_keycode ≡ true
    → ctrl s.mods ≡ true
    → alt s.mods ≡ false
    → getch_ s ≡ key_code s.last_keycode
unfolding getch_
getch_-ctrl_letter s letter with_ctrl no_alt = ground (arith, letter_chars s.last_keycode letter)

-- Caps Lock has no effect on a key that is no letter.
pub getch_-caps_lock :
    (s : Input) (on : Bool)
    → is_letter s.last_keycode ≡ false
    → getch_ (record s { mods = record s.mods { caps_lock = on } }) ≡ getch_ s
unfolding getch_ alt_char ctrl_char plain_char
getch_-caps_lock s on other = ground arith

normal-lt : (k : KeyCode) → keyboard_map_normal k < 128
unfolding keyboard_map_normal
normal-lt key_none = omega arith
normal-lt _ = omega arith

shift-lt : (k : KeyCode) → keyboard_map_shift k < 128
unfolding keyboard_map_shift
shift-lt key_none = omega arith
shift-lt _ = omega arith

altgr-lt : (k : KeyCode) → keyboard_map_altgr k < 128
unfolding keyboard_map_altgr
altgr-lt key_none = omega arith
altgr-lt _ = omega arith

plain_char-lt : (k : KeyCode) (m : Modifier) → plain_char k m < 128
unfolding plain_char
plain_char-lt k m = ground (arith, normal-lt k, shift-lt k)

ctrl_char-le : (m : Modifier) (c : ℕ) → ctrl_char m c ≤ c
unfolding ctrl_char
ctrl_char-le m c = ground arith

-- Every character is in the range of ASCII, so that it survives the conversion to `char` and lies
-- within the 128 glyphs of the font.
pub getch_-lt : (s : Input) → getch_ s < 128
unfolding getch_ alt_char
getch_-lt s = ground (
  arith,
  altgr-lt s.last_keycode,
  ctrl_char-le s.mods (plain_char s.last_keycode s.mods),
  plain_char-lt s.last_keycode s.mods,
)
