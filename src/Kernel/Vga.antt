-- ===== src/Kernel/Vga.antt =====
-- The text screen, kernel/x86/tty/vga.cpp. The frame buffer is a list of cells, 16-bit numbers; the
-- block functions are called for whole cells. A color is its number in the source's enumeration.
-- The bytes that `update_cursor` writes to the ports are its result.
pub mod Screen
mod Tests
use bunos.Prelude.{
  ℕ, zero, suc, ◌+◌, ◌-◌, ◌*◌, ◌/◌, ◌%◌, ◌^◌, Bool, List, [], ◌∷◌, Result, ok, ◌>>=◌, store, ltb,
  ◌==◌, if◌then◌else◌, bit_or, bit_and,
}
use bunos.Libc.Memory.{memcpy, memset}

abbrev pub text_width : ℕ
text_width = 80

abbrev pub text_height : ℕ
text_height = 25

abbrev pub light_gray : ℕ
light_gray = 7

abbrev pub white : ℕ
white = 15

pub record Vga : Type 0 where
  pub row : ℕ
  pub column : ℕ
  pub current_color : ℕ
  pub termbuffer : List ℕ

-- `static_cast<u16>` of a signed `char`, given as its byte.
char_u16 : ℕ → ℕ
char_u16 c = if ltb c 0x80 then c else c + 0xFF00

unfoldable pub entry : ℕ → ℕ → ℕ
unfolding char_u16
entry c bg = bit_or (char_u16 c) (bg * 2 ^ 8)

-- `k` cells of the loops of `clear`, which go through the buffer in order.
clear_loop : ℕ → ℕ → List ℕ → Result (List ℕ)
clear_loop zero index buf = ok buf
clear_loop (suc k) index buf = do
  buf' ← store buf index (entry 0x20 white)
  clear_loop k (index + 1) buf'

unfoldable pub clear : Vga → Result Vga
unfolding clear_loop
clear s = do
  buf ← clear_loop (text_height * text_width) 0 s.termbuffer
  ok (record { row = 0; column = 0; current_color = light_gray; termbuffer = buf })

unfoldable pub write_char_at : Vga → ℕ → ℕ → ℕ → Result Vga
write_char_at s c column row = do
  buf ← store s.termbuffer (row * text_width + column) (entry c s.current_color)
  ok (record s { termbuffer = buf })

-- Lines `i`, `i + 1`, ..., `k` of them, are copied to the lines before them.
unfoldable pub scroll_loop : ℕ → ℕ → List ℕ → Result (List ℕ)
scroll_loop zero i buf = ok buf
scroll_loop (suc k) i buf = do
  buf' ← memcpy buf ((i - 1) * text_width) buf (i * text_width) text_width
  scroll_loop k (i + 1) buf'

unfoldable pub scroll : Vga → Result Vga
scroll s = do
  lines ← scroll_loop (text_height - 1) 1 s.termbuffer
  buf ← memset lines (text_width * (text_height - 1)) 0 text_width
  ok (record s { column = 0; row = text_height - 1; termbuffer = buf })

-- The `switch` of `putchar`.
unfoldable pub place : Vga → ℕ → Result Vga
place s c =
    if c == 0x0A
    then ok (record s { column = 0; row = (s.row + 1) % 2 ^ 8 })
    else if c == 0x08
    then (if ltb 0 s.column
        then write_char_at (record s { column = s.column - 1 }) 0x20 (s.column - 1) s.row
        else ok s)
    else if c == 0x0D
    then ok (record s { column = 0 })
    else (do
      s' ← write_char_at s c s.column s.row
      ok (record s' { column = (s'.column + 1) % 2 ^ 8 }))

-- The two tests after it.
unfoldable pub wrap_line : Vga → Result Vga
wrap_line s =
    let s' =
      if s.column == text_width then record s { column = 0; row = (s.row + 1) % 2 ^ 8 } else s in
    if s'.row == text_height then scroll s' else ok s'

unfoldable pub putchar : Vga → ℕ → Result Vga
putchar s c = do s' ← place s c; wrap_line s'

unfoldable pub put_all : Vga → List ℕ → Result Vga
put_all s [] = ok s
put_all s (c ∷ text) = do s' ← putchar s c; put_all s' text

-- The values for the ports 0x3D4 and 0x3D5, in turn.
unfoldable pub update_cursor : Vga → List ℕ
update_cursor s =
    let pos = (s.row * text_width + s.column) % 2 ^ 16 in
    0x0F ∷ bit_and pos 0xFF ∷ 0x0E ∷ bit_and (pos / 2 ^ 8) 0xFF ∷ []

unfoldable pub write_text : Vga → List ℕ → Result (Vga × List ℕ)
write_text s text = do s' ← put_all s text; ok (s', update_cursor s')
