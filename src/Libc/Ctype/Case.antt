-- ===== src/Libc/Ctype/Case.antt =====
-- The case conversions, against the alphabet.
use bunos.Prelude.{ℕ, ◌+◌, ◌<◌, ◌≡◌, false, ◌||◌, ltb, if◌then◌else◌, arith}
use bunos.Libc.Ctype.{isupper, islower, isalpha, isdigit, isxdigit, tolower, toupper}

-- `toupper` brings the `i`-th lower case letter to the `i`-th upper case one and keeps the upper
-- case letter; `tolower` does the converse for every letter but `a`, which it brings to 0x81.
pub case_letters :
    (i : ℕ)
    → i < 26
    → (toupper (0x61 + i) ≡ 0x41 + i)
      × (toupper (0x41 + i) ≡ 0x41 + i)
      × (tolower (0x41 + i) ≡ 0x61 + i)
      × (tolower (0x61 + i) ≡ (if ltb 0 i then 0x61 + i else 0x81))
unfolding tolower toupper isalpha isupper islower
case_letters i h = (ground arith, ground arith, ground arith, ground arith)

-- A character that is no letter is its own upper and lower case.
pub case_others : (c : ℕ) → isalpha c ≡ false → (toupper c ≡ c) × (tolower c ≡ c)
unfolding tolower toupper
case_others c h = (rw h, rw h)

-- `isxdigit` accepts exactly the digits and all letters, not only those up to `f`.
pub isxdigit_lem : (c : ℕ) → isxdigit c ≡ (isalpha c || isdigit c)
unfolding isxdigit isalpha isupper islower
isxdigit_lem c = ground arith
