-- ===== src/Kernel/Vga/Tests.antt =====
-- Writing at the last cell of the screen, which scrolls.
use bunos.Prelude.{ℕ, ◌≡◌, [], ◌∷◌, ok, arith, replicate, length-replicate}
use bunos.Kernel.Vga.{Vga, write_text, update_cursor}
use bunos.Kernel.Vga.Screen.{IsScreen, write_text-IsScreen}

abbrev last_cell : Vga
last_cell = record { row = 24; column = 79; current_color = 7; termbuffer = replicate 2000 0 }

last_cell-IsScreen : IsScreen last_cell
last_cell-IsScreen = record {
  row_in = omega arith;
  column_in = omega arith;
  cells = length-replicate {A = ℕ} 2000 0;
}

write_text-IsScreen_example :
    (s' : Vga) × (write_text last_cell (0x61 ∷ 0x0A ∷ 0x08 ∷ []) ≡ ok (s', update_cursor s'))
    × IsScreen s'
write_text-IsScreen_example =
    write_text-IsScreen last_cell (0x61 ∷ 0x0A ∷ 0x08 ∷ []) last_cell-IsScreen
