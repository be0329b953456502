-- ===== src/Keyboard.antt =====
-- The keyboard driver: kernel/src/drivers/keyboard. The static variables of keyboard_handler.c are
-- the record `Input`; what the interrupt handler does on the screen is a list of calls.
pub mod Chars
pub mod Tables
pub mod Taps
mod Tests
use bethany.Prelude.{
  ℕ, zero, suc, ◌+◌, ◌-◌, Bool, true, false, not, ◌&&◌, ◌||◌, List, [], ◌∷◌, bit_and, ltb, leb,
  ◌==◌, if◌then◌else◌, get_or,
}
use bethany.Keyboard.Tables.{
  KeyCode, key_none, key_lshift, key_rshift, key_lctrl, key_rctrl, key_lalt, key_ralt, key_capslock,
  key_up, key_down, key_left, key_right, key_code, scancode_set1, scancode_set1_extended,
  keyboard_map_normal, keyboard_map_shift, keyboard_map_altgr,
}

pub record Modifier : Type 0 where
  pub lshift : Bool
  pub rshift : Bool
  pub lctrl : Bool
  pub rctrl : Bool
  pub lalt : Bool
  pub ralt : Bool
  pub caps_lock : Bool

pub record Input : Type 0 where
  pub last_keycode : KeyCode
  pub mods : Modifier

-- The `switch` of `update_input_state`.
pub set_modifier : KeyCode → Bool → Modifier → Modifier
set_modifier key_lshift pressed m = record m { lshift = pressed }
set_modifier key_rshift pressed m = record m { rshift = pressed }
set_modifier key_lctrl pressed m = record m { lctrl = pressed }
set_modifier key_rctrl pressed m = record m { rctrl = pressed }
set_modifier key_lalt pressed m = record m { lalt = pressed }
set_modifier key_ralt pressed m = record m { ralt = pressed }
set_modifier key_capslock pressed m =
    if pressed then record m { caps_lock = not m.caps_lock } else m
set_modifier _ pressed m = m

pub update_input_state : KeyCode → Bool → Input → Input
unfolding set_modifier
update_input_state key pressed s = record {
  last_keycode = if pressed then key else s.last_keycode;
  mods = set_modifier key pressed s.mods;
}

pub update_input : ℕ → Bool → Bool → Input → Input
update_input key pressed extended s =
    if extended
    then (if ltb key 128
        then update_input_state (get_or scancode_set1_extended key key_none) pressed s
        else s)
    else (if ltb key 128
        then update_input_state (get_or scancode_set1 key key_none) pressed s
        else s)

pub getky_ : Input → KeyCode
getky_ s = s.last_keycode

-- The keys for which `getch_` returns 0 at once.
pub is_silent : KeyCode → Bool
is_silent key_none = true
is_silent key_lshift = true
is_silent key_rshift = true
is_silent key_lctrl = true
is_silent key_rctrl = true
is_silent key_lalt = true
is_silent key_ralt = true
is_silent key_capslock = true
is_silent _ = false

-- `k >= KEY_A && k <= KEY_Z`
pub is_letter : KeyCode → Bool
unfolding key_code
is_letter k = leb 1 (key_code k) && leb (key_code k) 26

-- The character that the shift state selects.
pub plain_char : KeyCode → Modifier → ℕ
unfolding is_letter keyboard_map_shift keyboard_map_normal
plain_char k m =
    let shift = m.lshift || m.rshift in
    let shift_table = if m.caps_lock && is_letter k then not shift else shift in
    if shift_table then keyboard_map_shift k else keyboard_map_normal k

-- The two adjustments under Ctrl.
pub ctrl_char : Modifier → ℕ → ℕ
ctrl_char m c =
    let ctrl = m.lctrl || m.rctrl in
    let c' = if ctrl && leb b'a' c && leb c b'z' then c - (b'a' - 1) else c in
    if ctrl && leb b'A' c' && leb c' b'Z' then c' - (b'A' - 1) else c'

-- The replacement under Alt.
pub alt_char : KeyCode → Modifier → ℕ → ℕ
unfolding keyboard_map_altgr
alt_char k m c =
    if (m.lalt || m.ralt) && not (keyboard_map_altgr k == 0) then keyboard_map_altgr k else c

pub getch_ : Input → ℕ
unfolding is_silent plain_char ctrl_char alt_char
getch_ s =
    let k = s.last_keycode in
    if is_silent k then 0 else alt_char k s.mods (ctrl_char s.mods (plain_char k s.mods))

-- The calls of the terminal and of the print functions.
pub data Output : Type 0 where
  cursor_up cursor_down cursor_left cursor_right : Output
  print_char : ℕ → Output
  erase : Output

-- What the handler does for the key that is pressed now.
pub echo : KeyCode → Input → List Output
unfolding getch_
echo key_up s = cursor_up ∷ []
echo key_down s = cursor_down ∷ []
echo key_left s = cursor_left ∷ []
echo key_right s = cursor_right ∷ []
echo _ s =
    let c = getch_ s in if c == 0 then [] else if c == 8 then erase ∷ [] else print_char c ∷ []

-- `first` and `second` are what `ps2_read` returns; the second byte is read only after 0xE0.
pub keyboard_irq : ℕ → ℕ → Input → Input × List Output
unfolding getky_
keyboard_irq first second s =
    let extended = first == 0xe0 in
    let scancode = if extended then second else first in
    let pressed = bit_and scancode 0x80 == 0 in
    let s' = update_input (bit_and scancode 0x7f) pressed extended s in
    (s', if pressed then echo (getky_ s') s' else [])
