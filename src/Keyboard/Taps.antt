-- ===== src/Keyboard/Taps.antt =====
-- Pressing and releasing keys: the interrupt handler of kernel/src/drivers/keyboard/keyboard.c.
use bethany.Prelude.{
  ℕ, ◌+◌, ◌<◌, ◌≡◌, ◌≢◌, Bool, true, false, not, ◌&&◌, arith, ◌==◌, refl, [], bit_and, passes,
  lt→ltb, ap, lookup_passes, lt→ltb, ap, get_or,
}
use bethany.Keyboard.Tables.{
  KeyCode, key_none, key_lshift, key_rshift, key_lctrl, key_rctrl, key_lalt, key_ralt, key_capslock,
  scancode_set1,
}
use bethany.Keyboard.{Modifier, Input, set_modifier, update_input_state, update_input, keyboard_irq}

-- Whether the key counts as held down.
abbrev pub held : KeyCode → Modifier → Bool
held key_lshift m = m.lshift
held key_rshift m = m.rshift
held key_lctrl m = m.lctrl
held key_rctrl m = m.rctrl
held key_lalt m = m.lalt
held key_ralt m = m.ralt
held _ m = false

-- What a key that is pressed and released leaves behind: Caps Lock is turned over, the others leave
-- nothing.
abbrev pub tapped : KeyCode → Modifier → Modifier
tapped key_capslock m = record m { caps_lock = not m.caps_lock }
tapped _ m = m

release-press :
    (k : KeyCode) (m : Modifier)
    → held k m ≡ false
    → set_modifier k false (set_modifier k true m) ≡ tapped k m
unfolding set_modifier
release-press key_none m h = refl
release-press _ m h = ground arith

-- A make code has bit 7 clear, and its break code is 128 above it.
abbrev code_law : ℕ → Bool
code_law c =
    (bit_and c 0x80 == 0)
    && (bit_and c 0x7f == c)
    && not (bit_and (c + 128) 0x80 == 0)
    && (bit_and (c + 128) 0x7f == c)

code_table : passes code_law 128 ≡ true
unfolding passes
code_table = refl

record Codes (c : ℕ) : Type 0 where
  make : (bit_and c 0x80 == 0) ≡ true
  make_key : bit_and c 0x7f ≡ c
  break : (bit_and (c + 128) 0x80 == 0) ≡ false
  break_key : bit_and (c + 128) 0x7f ≡ c

codes : (c : ℕ) → c < 128 → Codes c
codes c h = ground (arith, lookup_passes code_law {i = c} 128 h code_table)

abbrev pub key_of : ℕ → KeyCode
key_of c = get_or scancode_set1 c key_none

update_input-key_of :
    (c : ℕ) (pressed : Bool) (s : Input)
    → c < 128
    → update_input c pressed false s ≡ update_input_state (key_of c) pressed s
unfolding update_input
update_input-key_of c pressed s h = rw (lt→ltb c 128 h)

irq-press :
    (c second : ℕ) (s : Input)
    → c < 128
    → (keyboard_irq c second s).0 ≡ update_input_state (key_of c) true s
unfolding keyboard_irq
irq-press c second s h =
    let code = codes c h in
    let plain : (c == 0xe0) ≡ false = ground arith in
    rw (plain, code.make, code.make_key) (update_input-key_of c true s h)

irq-release :
    (c second : ℕ) (s : Input)
    → c < 128
    → c ≢ 0x60
    → keyboard_irq (c + 128) second s ≡ (update_input_state (key_of c) false s, [])
unfolding keyboard_irq
irq-release c second s h ne =
    let code = codes c h in
    let plain : (c + 128 == 0xe0) ≡ false = ground arith in
    rw (plain, code.break, code.break_key)
      (ap (λ (t : Input). (t, [])) (update_input-key_of c false s h))

-- A key with a code of one byte that is not held is pressed and released by its make and break code: it becomes the last
-- key, Caps Lock is turned over if it is that key, every other modifier is as before, and the
-- release shows nothing on the screen. (0x60 is left out: its break code is the prefix 0xE0.)
pub keyboard_irq_tap :
    (c second second' : ℕ) (s : Input)
    → c < 128
    → c ≢ 0x60
    → held (key_of c) s.mods ≡ false
    → keyboard_irq (c + 128) second' (keyboard_irq c second s).0
      ≡ (record { last_keycode = key_of c; mods = tapped (key_of c) s.mods }, [])
unfolding update_input_state
keyboard_irq_tap c second second' s h ne up =
    rw (irq-press c second s h, irq-release c second' _ h ne, release-press (key_of c) s.mods up)
      refl
