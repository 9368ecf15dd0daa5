-- ===== src/Kernel/Keyboard/Scancodes.antt =====
-- Scan code set 3: the S3 half of kernel/x86/ps2_keyboard_scancodes.hpp, and the tables of
-- `scancode_to_ascii` and `with_shift` in kernel/x86/ps2_keyboard.cpp.
use bunos.Prelude.{ℕ, List, [], ◌∷◌, ◌==◌, if◌then◌else◌}
use bunos.Libc.Ctype.{isalpha, toupper}

-- The macros, by name.
pub data Key : Type 0 where
  s3_a s3_b s3_c s3_d s3_e s3_f s3_g s3_h s3_i s3_j s3_k s3_l s3_m s3_n s3_o s3_p s3_q s3_r s3_s :
      Key
  s3_t s3_u s3_v s3_w s3_x s3_y s3_z s3_0 s3_1 s3_2 s3_3 s3_4 s3_5 s3_6 s3_7 s3_8 s3_9 : Key
  s3_backtick s3_minus s3_equals s3_backslash s3_backspace s3_space s3_tab s3_caps s3_lshift : Key
  s3_lctrl s3_lsuper s3_lalt s3_rshift s3_rctrl s3_rsuper s3_ralt s3_apps s3_enter s3_esc s3_f1 :
      Key
  s3_f2 s3_f3 s3_f4 s3_f5 s3_f6 s3_f7 s3_f8 s3_f9 s3_f10 s3_f11 s3_f12 s3_print s3_scrollock : Key
  s3_pause s3_lbracket s3_insert s3_home s3_pgup s3_delete s3_end s3_pgdn s3_up s3_left s3_down :
      Key
  s3_right s3_numlck s3_numslash s3_numstar s3_numminus s3_numplus s3_numenter s3_numdot s3_num0 :
      Key
  s3_num1 s3_num2 s3_num3 s3_num4 s3_num5 s3_num6 s3_num7 s3_num8 s3_num9 s3_rbracket : Key
  s3_semicolon s3_quote s3_comma s3_period s3_slash s3_release_prefix : Key

-- Their values.
unfoldable pub code : Key → ℕ
code s3_a = 0x1C
code s3_b = 0x32
code s3_c = 0x21
code s3_d = 0x23
code s3_e = 0x24
code s3_f = 0x2B
code s3_g = 0x34
code s3_h = 0x33
code s3_i = 0x43
code s3_j = 0x3B
code s3_k = 0x42
code s3_l = 0x4B
code s3_m = 0x3A
code s3_n = 0x31
code s3_o = 0x44
code s3_p = 0x4D
code s3_q = 0x15
code s3_r = 0x2D
code s3_s = 0x1B
code s3_t = 0x2C
code s3_u = 0x3C
code s3_v = 0x2A
code s3_w = 0x1D
code s3_x = 0x22
code s3_y = 0x35
code s3_z = 0x1A
code s3_0 = 0x45
code s3_1 = 0x16
code s3_2 = 0x1E
code s3_3 = 0x26
code s3_4 = 0x25
code s3_5 = 0x2E
code s3_6 = 0x36
code s3_7 = 0x3D
code s3_8 = 0x3E
code s3_9 = 0x46
code s3_backtick = 0x0E
code s3_minus = 0x4E
code s3_equals = 0x55
code s3_backslash = 0x5C
code s3_backspace = 0x66
code s3_space = 0x29
code s3_tab = 0x0D
code s3_caps = 0x14
code s3_lshift = 0x12
code s3_lctrl = 0x11
code s3_lsuper = 0x8B
code s3_lalt = 0x19
code s3_rshift = 0x59
code s3_rctrl = 0x58
code s3_rsuper = 0x8C
code s3_ralt = 0x39
code s3_apps = 0x8D
code s3_enter = 0x5A
code s3_esc = 0x08
code s3_f1 = 0x07
code s3_f2 = 0x0F
code s3_f3 = 0x17
code s3_f4 = 0x1F
code s3_f5 = 0x27
code s3_f6 = 0x2F
code s3_f7 = 0x37
code s3_f8 = 0x3F
code s3_f9 = 0x47
code s3_f10 = 0x4F
code s3_f11 = 0x56
code s3_f12 = 0x5E
code s3_print = 0x57
code s3_scrollock = 0x5F
code s3_pause = 0x62
code s3_lbracket = 0x54
code s3_insert = 0x67
code s3_home = 0x6E
code s3_pgup = 0x6F
code s3_delete = 0x64
code s3_end = 0x65
code s3_pgdn = 0x6D
code s3_up = 0x63
code s3_left = 0x61
code s3_down = 0x60
code s3_right = 0x6A
code s3_numlck = 0x76
code s3_numslash = 0x4A
code s3_numstar = 0x7E
code s3_numminus = 0x4E
code s3_numplus = 0x7C
code s3_numenter = 0x79
code s3_numdot = 0x71
code s3_num0 = 0x70
code s3_num1 = 0x69
code s3_num2 = 0x72
code s3_num3 = 0x7A
code s3_num4 = 0x6B
code s3_num5 = 0x73
code s3_num6 = 0x74
code s3_num7 = 0x6C
code s3_num8 = 0x75
code s3_num9 = 0x7D
code s3_rbracket = 0x5B
code s3_semicolon = 0x4C
code s3_quote = 0x52
code s3_comma = 0x41
code s3_period = 0x49
code s3_slash = 0x4A
code s3_release_prefix = 0xF0

-- The cases of `scancode_to_ascii` that return a character, in order.
ascii_table : List (Key × ℕ)
ascii_table =
    (s3_0, 0x30)
    ∷ (s3_num0, 0x30)
    ∷ (s3_1, 0x31)
    ∷ (s3_num1, 0x31)
    ∷ (s3_2, 0x32)
    ∷ (s3_num2, 0x32)
    ∷ (s3_3, 0x33)
    ∷ (s3_num3, 0x33)
    ∷ (s3_4, 0x34)
    ∷ (s3_num4, 0x34)
    ∷ (s3_5, 0x35)
    ∷ (s3_num5, 0x35)
    ∷ (s3_6, 0x36)
    ∷ (s3_num6, 0x36)
    ∷ (s3_7, 0x37)
    ∷ (s3_num7, 0x37)
    ∷ (s3_8, 0x38)
    ∷ (s3_num8, 0x38)
    ∷ (s3_9, 0x39)
    ∷ (s3_num9, 0x39)
    ∷ (s3_a, 0x61)
    ∷ (s3_b, 0x62)
    ∷ (s3_c, 0x63)
    ∷ (s3_d, 0x64)
    ∷ (s3_e, 0x65)
    ∷ (s3_f, 0x66)
    ∷ (s3_g, 0x67)
    ∷ (s3_h, 0x68)
    ∷ (s3_i, 0x69)
    ∷ (s3_j, 0x6A)
    ∷ (s3_k, 0x6B)
    ∷ (s3_l, 0x6C)
    ∷ (s3_m, 0x6D)
    ∷ (s3_n, 0x6E)
    ∷ (s3_o, 0x6F)
    ∷ (s3_p, 0x70)
    ∷ (s3_q, 0x71)
    ∷ (s3_r, 0x72)
    ∷ (s3_s, 0x73)
    ∷ (s3_t, 0x74)
    ∷ (s3_u, 0x75)
    ∷ (s3_v, 0x76)
    ∷ (s3_w, 0x77)
    ∷ (s3_x, 0x78)
    ∷ (s3_y, 0x79)
    ∷ (s3_z, 0x7A)
    ∷ (s3_backtick, 0x60)
    ∷ (s3_minus, 0x2D)
    ∷ (s3_backslash, 0x5C)
    ∷ (s3_backspace, 0x08)
    ∷ (s3_space, 0x20)
    ∷ (s3_enter, 0x0A)
    ∷ (s3_numenter, 0x0A)
    ∷ (s3_numplus, 0x2B)
    ∷ (s3_equals, 0x3D)
    ∷ (s3_tab, 0x09)
    ∷ (s3_semicolon, 0x3B)
    ∷ (s3_comma, 0x2C)
    ∷ (s3_period, 0x2E)
    ∷ (s3_quote, 0x27)
    ∷ (s3_slash, 0x2F)
    ∷ (s3_delete, 0x7F)
    ∷ []

-- A `switch` over the rows; what falls through gets `otherwise`.
find_key : ℕ → List (Key × ℕ) → ℕ → ℕ
unfolding code
find_key c [] otherwise = otherwise
find_key c ((key, ascii) ∷ rows) otherwise =
    let rest = find_key c rows otherwise in if c == code key then ascii else rest

-- The keys without a character and the unknown codes give 0.
unfoldable pub scancode_to_ascii : ℕ → ℕ
unfolding ascii_table find_key
scancode_to_ascii c = find_key c ascii_table 0

-- The cases of `with_shift`.
shift_table : List (ℕ × ℕ)
shift_table =
    (0x31, 0x21)
    ∷ (0x32, 0x40)
    ∷ (0x33, 0x23)
    ∷ (0x34, 0x24)
    ∷ (0x35, 0x25)
    ∷ (0x36, 0x5E)
    ∷ (0x37, 0x26)
    ∷ (0x38, 0x2A)
    ∷ (0x39, 0x28)
    ∷ (0x30, 0x29)
    ∷ (0x3B, 0x3A)
    ∷ (0x27, 0x22)
    ∷ (0x5C, 0x7C)
    ∷ (0x2F, 0x3F)
    ∷ (0x2C, 0x3C)
    ∷ (0x2E, 0x3E)
    ∷ (0x2D, 0x5F)
    ∷ (0x3D, 0x2B)
    ∷ (0x60, 0x7E)
    ∷ []

find_char : ℕ → List (ℕ × ℕ) → ℕ
find_char c [] = c
find_char c ((ascii, shifted) ∷ rows) =
    let rest = find_char c rows in if c == ascii then shifted else rest

unfoldable pub with_shift : ℕ → ℕ
unfolding shift_table find_char
with_shift c = if isalpha c then toupper c else find_char c shift_table
