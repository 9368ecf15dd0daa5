-- ===== src/Libc/Strings/Tests.antt =====
-- The string functions on "ab".
use bunos.Prelude.{ℕ, ◌≡◌, ◌↔◌, List, [], ◌∷◌, ok, arith}
use bunos.Libc.Strings.{Sign, same, strcmp}
use bunos.Libc.Strings.Length.{IsText, empty, char}
use bunos.Libc.Strings.Compare.{strcmp_lem}

ab : IsText (0x61 ∷ 0x62 ∷ [])
ab = char (omega arith) (omega arith) (char (omega arith) (omega arith) empty)

ac : IsText (0x61 ∷ 0x63 ∷ [])
ac = char (omega arith) (omega arith) (char (omega arith) (omega arith) empty)

strcmp_lem_example :
    (sign : Sign) × (strcmp (0x61 ∷ 0x62 ∷ 0 ∷ []) (0x61 ∷ 0x63 ∷ 0 ∷ []) ≡ ok sign)
    × ((sign ≡ same) ↔ (◌≡◌ {A = List ℕ} (0x61 ∷ 0x62 ∷ []) (0x61 ∷ 0x63 ∷ [])))
strcmp_lem_example = strcmp_lem [] [] ab ac
