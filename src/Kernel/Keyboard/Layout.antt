-- ===== src/Kernel/Keyboard/Layout.antt =====
-- The keys of a US keyboard that have a character, for the proofs about
-- kernel/x86/ps2_keyboard.cpp: the code in scan code set 3, the character in ASCII, and the one
-- with shift. The tables of the code stand in Kernel.Keyboard.Scancodes.
use bunos.Prelude.{ℕ, ◌≡◌, ◌≢◌, refl, Bool, true, List, [], ◌∷◌, arith, ◌==◌, ◌!=◌, ◌&&◌}
use bunos.Kernel.Keyboard.Scancodes.{scancode_to_ascii, with_shift}
use bunos.Libc.Ctype.{isalpha, toupper}

-- Letters, the digits above them, the other signs, the keys to move and erase, and last the number
-- pad, which shift changes like the digits above the letters.
abbrev pub layout : List (ℕ × ℕ × ℕ)
layout =
    (0x1C, 0x61, 0x41)
    ∷ (0x32, 0x62, 0x42)
    ∷ (0x21, 0x63, 0x43)
    ∷ (0x23, 0x64, 0x44)
    ∷ (0x24, 0x65, 0x45)
    ∷ (0x2B, 0x66, 0x46)
    ∷ (0x34, 0x67, 0x47)
    ∷ (0x33, 0x68, 0x48)
    ∷ (0x43, 0x69, 0x49)
    ∷ (0x3B, 0x6A, 0x4A)
    ∷ (0x42, 0x6B, 0x4B)
    ∷ (0x4B, 0x6C, 0x4C)
    ∷ (0x3A, 0x6D, 0x4D)
    ∷ (0x31, 0x6E, 0x4E)
    ∷ (0x44, 0x6F, 0x4F)
    ∷ (0x4D, 0x70, 0x50)
    ∷ (0x15, 0x71, 0x51)
    ∷ (0x2D, 0x72, 0x52)
    ∷ (0x1B, 0x73, 0x53)
    ∷ (0x2C, 0x74, 0x54)
    ∷ (0x3C, 0x75, 0x55)
    ∷ (0x2A, 0x76, 0x56)
    ∷ (0x1D, 0x77, 0x57)
    ∷ (0x22, 0x78, 0x58)
    ∷ (0x35, 0x79, 0x59)
    ∷ (0x1A, 0x7A, 0x5A)
    ∷ (0x45, 0x30, 0x29)
    ∷ (0x16, 0x31, 0x21)
    ∷ (0x1E, 0x32, 0x40)
    ∷ (0x26, 0x33, 0x23)
    ∷ (0x25, 0x34, 0x24)
    ∷ (0x2E, 0x35, 0x25)
    ∷ (0x36, 0x36, 0x5E)
    ∷ (0x3D, 0x37, 0x26)
    ∷ (0x3E, 0x38, 0x2A)
    ∷ (0x46, 0x39, 0x28)
    ∷ (0x0E, 0x60, 0x7E)
    ∷ (0x4E, 0x2D, 0x5F)
    ∷ (0x55, 0x3D, 0x2B)
    ∷ (0x5C, 0x5C, 0x7C)
    ∷ (0x4C, 0x3B, 0x3A)
    ∷ (0x52, 0x27, 0x22)
    ∷ (0x41, 0x2C, 0x3C)
    ∷ (0x49, 0x2E, 0x3E)
    ∷ (0x4A, 0x2F, 0x3F)
    ∷ (0x29, 0x20, 0x20)
    ∷ (0x0D, 0x09, 0x09)
    ∷ (0x5A, 0x0A, 0x0A)
    ∷ (0x66, 0x08, 0x08)
    ∷ (0x64, 0x7F, 0x7F)
    ∷ (0x70, 0x30, 0x29)
    ∷ (0x69, 0x31, 0x21)
    ∷ (0x72, 0x32, 0x40)
    ∷ (0x7A, 0x33, 0x23)
    ∷ (0x6B, 0x34, 0x24)
    ∷ (0x73, 0x35, 0x25)
    ∷ (0x74, 0x36, 0x5E)
    ∷ (0x6C, 0x37, 0x26)
    ∷ (0x75, 0x38, 0x2A)
    ∷ (0x7D, 0x39, 0x28)
    ∷ (0x7C, 0x2B, 0x2B)
    ∷ (0x79, 0x0A, 0x0A)
    ∷ []

-- A row of a layout.
pub data Row : List (ℕ × ℕ × ℕ) → ℕ → ℕ → ℕ → Type 0 where
  first :
      {c plain shifted : ℕ} {rows : List (ℕ × ℕ × ℕ)}
      → Row ((c, plain, shifted) ∷ rows) c plain shifted
  later :
      {c plain shifted : ℕ} {row : ℕ × ℕ × ℕ} {rows : List (ℕ × ℕ × ℕ)}
      → Row rows c plain shifted
      → Row (row ∷ rows) c plain shifted

row_test : ℕ × ℕ × ℕ → Bool
row_test (c, plain, shifted) =
    scancode_to_ascii c == plain && with_shift plain == shifted && plain != 0

all_rows : List (ℕ × ℕ × ℕ) → Bool
unfolding row_test
all_rows [] = true
all_rows (row ∷ rows) = row_test row && all_rows rows

layout_test : all_rows layout ≡ true
unfolding all_rows scancode_to_ascii with_shift isalpha toupper
layout_test = refl

row_lem :
    {c plain shifted : ℕ} (rows : List (ℕ × ℕ × ℕ))
    → all_rows rows ≡ true
    → Row rows c plain shifted
    → (scancode_to_ascii c ≡ plain) × (with_shift plain ≡ shifted) × (plain ≢ 0)
unfolding all_rows
row_lem [] tests r = elim r [ ]
row_lem (row ∷ rows) tests first =
    (ground (arith, tests), ground (arith, tests), ground (arith, tests))
row_lem (row ∷ rows) tests (later r) = row_lem rows (ground (arith, tests)) r

-- The tables of the code are those of the layout.
pub layout_lem :
    {c plain shifted : ℕ}
    → Row layout c plain shifted
    → (scancode_to_ascii c ≡ plain) × (with_shift plain ≡ shifted) × (plain ≢ 0)
layout_lem r = row_lem layout layout_test r
