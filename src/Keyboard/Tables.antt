-- ===== src/Keyboard/Tables.antt =====
-- The keyboard's key codes and tables, kernel/src/drivers/keyboard/keyboard_handler.h and
-- keyboard_handler.c.
use bethany.Prelude.{ℕ, List, [], ◌∷◌}

pub data KeyCode : Type 0 where
  key_none key_a key_b key_c key_d key_e key_f key_g : KeyCode
  key_h key_i key_j key_k key_l key_m key_n key_o : KeyCode
  key_p key_q key_r key_s key_t key_u key_v key_w : KeyCode
  key_x key_y key_z key_1 key_2 key_3 key_4 key_5 : KeyCode
  key_6 key_7 key_8 key_9 key_0 key_enter key_esc key_backspace : KeyCode
  key_tab key_space key_minus key_equal key_leftbrace key_rightbrace key_backslash key_semicolon :
      KeyCode
  key_apostrophe key_grave key_comma key_dot key_slash key_capslock key_f1 key_f2 : KeyCode
  key_f3 key_f4 key_f5 key_f6 key_f7 key_f8 key_f9 key_f10 : KeyCode
  key_f11 key_f12 key_lshift key_rshift key_lctrl key_rctrl key_lalt key_ralt : KeyCode
  key_up key_down key_left key_right key_numlock key_scrolllock key_insert key_delete : KeyCode
  key_home key_end key_pageup key_pagedown : KeyCode

-- The number of the constructor in the source's `enum`.
unfoldable pub key_code : KeyCode → ℕ
key_code key_none = 0
key_code key_a = 1
key_code key_b = 2
key_code key_c = 3
key_code key_d = 4
key_code key_e = 5
key_code key_f = 6
key_code key_g = 7
key_code key_h = 8
key_code key_i = 9
key_code key_j = 10
key_code key_k = 11
key_code key_l = 12
key_code key_m = 13
key_code key_n = 14
key_code key_o = 15
key_code key_p = 16
key_code key_q = 17
key_code key_r = 18
key_code key_s = 19
key_code key_t = 20
key_code key_u = 21
key_code key_v = 22
key_code key_w = 23
key_code key_x = 24
key_code key_y = 25
key_code key_z = 26
key_code key_1 = 27
key_code key_2 = 28
key_code key_3 = 29
key_code key_4 = 30
key_code key_5 = 31
key_code key_6 = 32
key_code key_7 = 33
key_code key_8 = 34
key_code key_9 = 35
key_code key_0 = 36
key_code key_enter = 37
key_code key_esc = 38
key_code key_backspace = 39
key_code key_tab = 40
key_code key_space = 41
key_code key_minus = 42
key_code key_equal = 43
key_code key_leftbrace = 44
key_code key_rightbrace = 45
key_code key_backslash = 46
key_code key_semicolon = 47
key_code key_apostrophe = 48
key_code key_grave = 49
key_code key_comma = 50
key_code key_dot = 51
key_code key_slash = 52
key_code key_capslock = 53
key_code key_f1 = 54
key_code key_f2 = 55
key_code key_f3 = 56
key_code key_f4 = 57
key_code key_f5 = 58
key_code key_f6 = 59
key_code key_f7 = 60
key_code key_f8 = 61
key_code key_f9 = 62
key_code key_f10 = 63
key_code key_f11 = 64
key_code key_f12 = 65
key_code key_lshift = 66
key_code key_rshift = 67
key_code key_lctrl = 68
key_code key_rctrl = 69
key_code key_lalt = 70
key_code key_ralt = 71
key_code key_up = 72
key_code key_down = 73
key_code key_left = 74
key_code key_right = 75
key_code key_numlock = 76
key_code key_scrolllock = 77
key_code key_insert = 78
key_code key_delete = 79
key_code key_home = 80
key_code key_end = 81
key_code key_pageup = 82
key_code key_pagedown = 83

unfoldable pub scancode_set1 : List KeyCode
scancode_set1 =
    key_none ∷ key_esc ∷ key_1 ∷ key_2 ∷ key_3 ∷ key_4 ∷ key_5 ∷ key_6 ∷ key_7 ∷ key_8 ∷ key_9
    ∷ key_0 ∷ key_minus ∷ key_equal ∷ key_backspace ∷ key_tab ∷ key_q ∷ key_w ∷ key_e ∷ key_r
    ∷ key_t ∷ key_y ∷ key_u ∷ key_i ∷ key_o ∷ key_p ∷ key_leftbrace ∷ key_rightbrace ∷ key_enter
    ∷ key_lctrl ∷ key_a ∷ key_s ∷ key_d ∷ key_f ∷ key_g ∷ key_h ∷ key_j ∷ key_k ∷ key_l
    ∷ key_semicolon ∷ key_apostrophe ∷ key_grave ∷ key_lshift ∷ key_backslash ∷ key_z ∷ key_x
    ∷ key_c ∷ key_v ∷ key_b ∷ key_n ∷ key_m ∷ key_comma ∷ key_dot ∷ key_slash ∷ key_rshift
    ∷ key_none ∷ key_lalt ∷ key_space ∷ key_capslock ∷ key_f1 ∷ key_f2 ∷ key_f3 ∷ key_f4 ∷ key_f5
    ∷ key_f6 ∷ key_f7 ∷ key_f8 ∷ key_f9 ∷ key_f10 ∷ key_numlock ∷ key_scrolllock ∷ key_none
    ∷ key_none ∷ key_none ∷ key_none ∷ key_none ∷ key_none ∷ key_none ∷ key_none ∷ key_none
    ∷ key_none ∷ key_none ∷ key_none ∷ key_none ∷ key_none ∷ key_none ∷ key_none ∷ key_f11 ∷ key_f12
    ∷ key_none ∷ key_none ∷ key_none ∷ key_none ∷ key_none ∷ key_none ∷ key_none ∷ key_none
    ∷ key_none ∷ key_none ∷ key_none ∷ key_none ∷ key_none ∷ key_none ∷ key_none ∷ key_none
    ∷ key_none ∷ key_none ∷ key_none ∷ key_none ∷ key_none ∷ key_none ∷ key_none ∷ key_none
    ∷ key_none ∷ key_none ∷ key_none ∷ key_none ∷ key_none ∷ key_none ∷ key_none ∷ key_none
    ∷ key_none ∷ key_none ∷ key_none ∷ key_none ∷ key_none ∷ key_none ∷ key_none ∷ []

unfoldable pub scancode_set1_extended : List KeyCode
scancode_set1_extended =
    key_none ∷ key_none ∷ key_none ∷ key_none ∷ key_none ∷ key_none ∷ key_none ∷ key_none ∷ key_none
    ∷ key_none ∷ key_none ∷ key_none ∷ key_none ∷ key_none ∷ key_none ∷ key_none ∷ key_none
    ∷ key_none ∷ key_none ∷ key_none ∷ key_none ∷ key_none ∷ key_none ∷ key_none ∷ key_none
    ∷ key_none ∷ key_none ∷ key_none ∷ key_enter ∷ key_rctrl ∷ key_none ∷ key_none ∷ key_none
    ∷ key_none ∷ key_none ∷ key_none ∷ key_none ∷ key_none ∷ key_none ∷ key_none ∷ key_none
    ∷ key_none ∷ key_none ∷ key_none ∷ key_none ∷ key_none ∷ key_none ∷ key_none ∷ key_none
    ∷ key_none ∷ key_none ∷ key_none ∷ key_none ∷ key_slash ∷ key_none ∷ key_none ∷ key_ralt
    ∷ key_none ∷ key_none ∷ key_none ∷ key_none ∷ key_none ∷ key_none ∷ key_none ∷ key_none
    ∷ key_none ∷ key_none ∷ key_none ∷ key_none ∷ key_none ∷ key_none ∷ key_home ∷ key_up
    ∷ key_pageup ∷ key_none ∷ key_left ∷ key_none ∷ key_right ∷ key_none ∷ key_end ∷ key_down
    ∷ key_pagedown ∷ key_insert ∷ key_delete ∷ key_none ∷ key_none ∷ key_none ∷ key_none ∷ key_none
    ∷ key_none ∷ key_none ∷ key_none ∷ key_none ∷ key_none ∷ key_none ∷ key_none ∷ key_none
    ∷ key_none ∷ key_none ∷ key_none ∷ key_none ∷ key_none ∷ key_none ∷ key_none ∷ key_none
    ∷ key_none ∷ key_none ∷ key_none ∷ key_none ∷ key_none ∷ key_none ∷ key_none ∷ key_none
    ∷ key_none ∷ key_none ∷ key_none ∷ key_none ∷ key_none ∷ key_none ∷ key_none ∷ key_none
    ∷ key_none ∷ key_none ∷ key_none ∷ key_none ∷ key_none ∷ key_none ∷ key_none ∷ []

unfoldable pub keyboard_map_normal : KeyCode → ℕ
keyboard_map_normal key_a = 97
keyboard_map_normal key_b = 98
keyboard_map_normal key_c = 99
keyboard_map_normal key_d = 100
keyboard_map_normal key_e = 101
keyboard_map_normal key_f = 102
keyboard_map_normal key_g = 103
keyboard_map_normal key_h = 104
keyboard_map_normal key_i = 105
keyboard_map_normal key_j = 106
keyboard_map_normal key_k = 107
keyboard_map_normal key_l = 108
keyboard_map_normal key_m = 109
keyboard_map_normal key_n = 110
keyboard_map_normal key_o = 111
keyboard_map_normal key_p = 112
keyboard_map_normal key_q = 113
keyboard_map_normal key_r = 114
keyboard_map_normal key_s = 115
keyboard_map_normal key_t = 116
keyboard_map_normal key_u = 117
keyboard_map_normal key_v = 118
keyboard_map_normal key_w = 119
keyboard_map_normal key_x = 120
keyboard_map_normal key_y = 121
keyboard_map_normal key_z = 122
keyboard_map_normal key_1 = 49
keyboard_map_normal key_2 = 50
keyboard_map_normal key_3 = 51
keyboard_map_normal key_4 = 52
keyboard_map_normal key_5 = 53
keyboard_map_normal key_6 = 54
keyboard_map_normal key_7 = 55
keyboard_map_normal key_8 = 56
keyboard_map_normal key_9 = 57
keyboard_map_normal key_0 = 48
keyboard_map_normal key_space = 32
keyboard_map_normal key_enter = 10
keyboard_map_normal key_tab = 9
keyboard_map_normal key_backspace = 8
keyboard_map_normal key_minus = 39
keyboard_map_normal key_comma = 44
keyboard_map_normal key_dot = 46
keyboard_map_normal key_slash = 45
keyboard_map_normal key_semicolon = 99
keyboard_map_normal key_grave = 96
keyboard_map_normal key_leftbrace = 43
keyboard_map_normal key_backslash = 126
keyboard_map_normal _ = 0

unfoldable pub keyboard_map_shift : KeyCode → ℕ
keyboard_map_shift key_a = 65
keyboard_map_shift key_b = 66
keyboard_map_shift key_c = 67
keyboard_map_shift key_d = 68
keyboard_map_shift key_e = 69
keyboard_map_shift key_f = 70
keyboard_map_shift key_g = 71
keyboard_map_shift key_h = 72
keyboard_map_shift key_i = 73
keyboard_map_shift key_j = 74
keyboard_map_shift key_k = 75
keyboard_map_shift key_l = 76
keyboard_map_shift key_m = 77
keyboard_map_shift key_n = 78
keyboard_map_shift key_o = 79
keyboard_map_shift key_p = 80
keyboard_map_shift key_q = 81
keyboard_map_shift key_r = 82
keyboard_map_shift key_s = 83
keyboard_map_shift key_t = 84
keyboard_map_shift key_u = 85
keyboard_map_shift key_v = 86
keyboard_map_shift key_w = 87
keyboard_map_shift key_x = 88
keyboard_map_shift key_y = 89
keyboard_map_shift key_z = 90
keyboard_map_shift key_1 = 33
keyboard_map_shift key_2 = 34
keyboard_map_shift key_3 = 35
keyboard_map_shift key_4 = 36
keyboard_map_shift key_5 = 37
keyboard_map_shift key_6 = 38
keyboard_map_shift key_7 = 47
keyboard_map_shift key_8 = 40
keyboard_map_shift key_9 = 41
keyboard_map_shift key_0 = 61
keyboard_map_shift key_minus = 63
keyboard_map_shift key_comma = 59
keyboard_map_shift key_dot = 58
keyboard_map_shift key_slash = 95
keyboard_map_shift key_semicolon = 67
keyboard_map_shift key_leftbrace = 42
keyboard_map_shift key_backslash = 94
keyboard_map_shift key_space = 32
keyboard_map_shift key_enter = 10
keyboard_map_shift key_tab = 9
keyboard_map_shift key_backspace = 8
keyboard_map_shift _ = 0

unfoldable pub keyboard_map_altgr : KeyCode → ℕ
keyboard_map_altgr key_2 = 64
keyboard_map_altgr key_7 = 123
keyboard_map_altgr key_8 = 91
keyboard_map_altgr key_9 = 93
keyboard_map_altgr key_0 = 125
keyboard_map_altgr _ = 0
