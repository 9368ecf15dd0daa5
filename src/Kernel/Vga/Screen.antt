-- ===== src/Kernel/Vga/Screen.antt =====
-- The cursor stays on the screen, and no cell outside of the frame buffer is written.
use bunos.Prelude.{
  ℕ, zero, suc, ◌+◌, ◌-◌, ◌*◌, ◌%◌, ◌^◌, ◌≤◌, ◌<◌, ◌≡◌, refl, ◌∙◌, List, [], ◌∷◌, ok, arith, length,
  set, take, drop, replicate, overwrite, length-set, length-overwrite, u8, ltb, ◌==◌, Bool-cases,
  inl, inr, ◌⊎◌,
}
use bunos.Libc.Memory.Copy.{store_ok, memcpy_lem, memset_lem}
use bunos.Kernel.Vga.{
  Vga, entry, write_char_at, scroll_loop, scroll, place, wrap_line, putchar, put_all, update_cursor,
  write_text,
}

pub record IsScreen (s : Vga) : Type 0 where
  pub row_in : s.row < 25
  pub column_in : s.column < 80
  pub cells : length s.termbuffer ≡ 2000

-- Between the `switch` and the tests.
record IsPlaced (s : Vga) : Type 0 where
  pub row_to : s.row ≤ 25
  pub column_to : s.column ≤ 80
  pub one_over : (s.row < 25) ⊎ (s.column < 80)
  pub cells : length s.termbuffer ≡ 2000

write_char_at_lem :
    (s : Vga) (c column row : ℕ)
    → length s.termbuffer ≡ 2000
    → row < 25
    → column < 80
    → write_char_at s c column row
      ≡ ok
          (record s { termbuffer = set s.termbuffer (row * 80 + column) (entry c s.current_color) })
unfolding write_char_at
write_char_at_lem s c column row h hr hc =
    rw (store_ok s.termbuffer (row * 80 + column) (entry c s.current_color) (omega arith))

scroll_loop_lem :
    (k i : ℕ) (buf : List ℕ)
    → length buf ≡ 2000
    → 0 < i
    → i + k ≡ 25
    → (buf' : List ℕ) × (scroll_loop k i buf ≡ ok buf') × (length buf' ≡ 2000)
unfolding scroll_loop
scroll_loop_lem zero i buf h pos e = (buf, refl, h)
scroll_loop_lem (suc k) i buf h pos e =
    let line = take 80 (drop (i * 80) buf) in
    let copied = memcpy_lem buf ((i - 1) * 80) buf (i * 80) 80 (omega arith) (omega arith) in
    let (buf', e', h') =
      scroll_loop_lem k (i + 1) (overwrite buf ((i - 1) * 80) line)
        (length-overwrite buf ((i - 1) * 80) line ∙ h) (omega arith) (omega arith) in
    (buf', rw (copied, e'), h')

scroll_lem : (s : Vga) → length s.termbuffer ≡ 2000 → (s' : Vga) × (scroll s ≡ ok s') × IsScreen s'
unfolding scroll
scroll_lem s h =
    let (lines, e, h') = scroll_loop_lem 24 1 s.termbuffer h (omega arith) (omega arith) in
    let cleared = memset_lem lines 1920 0 80 (omega arith) in
    (
      record s { column = 0; row = 24; termbuffer = overwrite lines 1920 (replicate 80 (u8 0)) },
      rw (e, cleared),
      record {
        row_in = omega arith;
        column_in = omega arith;
        cells = length-overwrite lines 1920 (replicate 80 (u8 0)) ∙ h';
      },
    )

wrap_line_lem : (s : Vga) → IsPlaced s → (s' : Vga) × (wrap_line s ≡ ok s') × IsScreen s'
unfolding wrap_line
wrap_line_lem s v = elim (Bool-cases (s.column == 80)) [
  | inl full ↦ elim (Bool-cases ((s.row + 1) % 2 ^ 8 == 25)) [
    | inl last ↦
        let (s', e, v') = scroll_lem (record s { column = 0; row = (s.row + 1) % 2 ^ 8 }) v.cells in
        (s', rw (full, last, e), v')
    | inr above ↦ (
      record s { column = 0; row = (s.row + 1) % 2 ^ 8 },
      rw (full, above),
      ground (arith, v.cells),
    )
  ]
  | inr room ↦ elim (Bool-cases (s.row == 25)) [
    | inl last ↦ let (s', e, v') = scroll_lem s v.cells in (s', rw (room, last, e), v')
    | inr above ↦ (s, rw (room, above), ground (arith, v.cells))
  ]
]

place_lem : (s : Vga) (c : ℕ) → IsScreen s → (s' : Vga) × (place s c ≡ ok s') × IsPlaced s'
unfolding place
place_lem s c v = elim (Bool-cases (c == 0x0A)) [
  | inl newline ↦
      (record s { column = 0; row = (s.row + 1) % 2 ^ 8 }, rw newline, ground (arith, v.cells))
  | inr n1 ↦ elim (Bool-cases (c == 0x08)) [
    | inl back ↦ elim (Bool-cases (ltb 0 s.column)) [
      | inl some_left ↦
          let written =
            write_char_at_lem (record s { column = s.column - 1 }) 0x20 (s.column - 1) s.row v.cells
              v.row_in (omega (arith, v.column_in)) in
          (
            record s {
              column = s.column - 1;
              termbuffer =
                  set s.termbuffer (s.row * 80 + (s.column - 1)) (entry 0x20 s.current_color);
            },
            rw (n1, back, some_left, written),
            record {
              row_to = omega arith;
              column_to = omega arith;
              one_over = inl v.row_in;
              cells = length-set s.termbuffer (s.row * 80 + (s.column - 1)) _ ∙ v.cells;
            },
          )
      | inr none_left ↦ (s, rw (n1, back, none_left), ground (arith, v.cells))
    ]
    | inr n2 ↦ elim (Bool-cases (c == 0x0D)) [
      | inl return ↦ (record s { column = 0 }, rw (n1, n2, return), ground (arith, v.cells))
      | inr n3 ↦
          let written = write_char_at_lem s c s.column s.row v.cells v.row_in v.column_in in
          (
            record s {
              column = (s.column + 1) % 2 ^ 8;
              termbuffer = set s.termbuffer (s.row * 80 + s.column) (entry c s.current_color);
            },
            rw (n1, n2, n3, written),
            record {
              row_to = omega arith;
              column_to = omega arith;
              one_over = inl v.row_in;
              cells = length-set s.termbuffer (s.row * 80 + s.column) _ ∙ v.cells;
            },
          )
    ]
  ]
]

putchar_lem : (s : Vga) (c : ℕ) → IsScreen s → (s' : Vga) × (putchar s c ≡ ok s') × IsScreen s'
unfolding putchar
putchar_lem s c v =
    let (s1, e1, v1) = place_lem s c v in
    let (s2, e2, v2) = wrap_line_lem s1 v1 in (s2, rw (e1, e2), v2)

put_all_lem :
    (s : Vga) (text : List ℕ) → IsScreen s → (s' : Vga) × (put_all s text ≡ ok s') × IsScreen s'
unfolding put_all
put_all_lem s [] v = (s, refl, v)
put_all_lem s (c ∷ text) v =
    let (s1, e1, v1) = putchar_lem s c v in
    let (s2, e2, v2) = put_all_lem s1 text v1 in (s2, rw (e1, e2), v2)

-- Whatever bytes are written, from a cursor on the screen `write` returns with the cursor on the
-- screen and the frame buffer of the same size: no cell outside of it is read or written.
pub write_text-IsScreen :
    (s : Vga) (text : List ℕ)
    → IsScreen s
    → (s' : Vga) × (write_text s text ≡ ok (s', update_cursor s')) × IsScreen s'
unfolding write_text
write_text-IsScreen s text v = let (s', e, v') = put_all_lem s text v in (s', rw e, v')
