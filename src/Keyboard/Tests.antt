-- ===== src/Keyboard/Tests.antt =====
-- Tests of kernel/src/drivers/keyboard, and its theorems at keys that are typed with modifiers.
use bethany.Prelude.{◌+◌, ◌≡◌, true, false, arith, refl, [], ◌∷◌}
use bethany.Keyboard.Tables.{key_none, key_a, key_5, key_up, scancode_set1, scancode_set1_extended}
use bethany.Keyboard.{Modifier, Input, keyboard_irq, cursor_up, print_char, erase}
use bethany.Keyboard.{update_input, update_input_state, echo}
use bethany.Keyboard.Taps.{key_of, tapped, keyboard_irq_tap}

abbrev no_modifier : Modifier
no_modifier = record {
  lshift = false;
  rshift = false;
  lctrl = false;
  rctrl = false;
  lalt = false;
  ralt = false;
  caps_lock = false;
}

abbrev fresh : Input
fresh = record { last_keycode = key_none; mods = no_modifier }

abbrev shift_caps_a : Input
shift_caps_a = record {
  last_keycode = key_a;
  mods = record no_modifier { rshift = true; caps_lock = true };
}

abbrev ctrl_a : Input
ctrl_a = record { last_keycode = key_a; mods = record no_modifier { lctrl = true } }

typing_q : (keyboard_irq 0x10 0 fresh).1 ≡ print_char b'q' ∷ []
unfolding keyboard_irq update_input update_input_state echo scancode_set1
typing_q = refl

backspace : (keyboard_irq 0x0e 0 fresh).1 ≡ erase ∷ []
unfolding keyboard_irq update_input update_input_state echo scancode_set1
backspace = refl

arrow_up : keyboard_irq 0xe0 0x48 fresh ≡ (record fresh { last_keycode = key_up }, cursor_up ∷ [])
unfolding keyboard_irq update_input update_input_state echo scancode_set1_extended
arrow_up = refl

keyboard_irq_tap_example :
    keyboard_irq (0x3a + 128) 0 (keyboard_irq 0x3a 0 fresh).0
    ≡ (record { last_keycode = key_of 0x3a; mods = tapped (key_of 0x3a) no_modifier }, [])
unfolding scancode_set1
keyboard_irq_tap_example = keyboard_irq_tap 0x3a 0 0 fresh (omega arith) (omega arith) refl

abbrev five : Input
five = record { last_keycode = key_5; mods = no_modifier }
