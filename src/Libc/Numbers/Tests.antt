-- ===== src/Libc/Numbers/Tests.antt =====
-- Texts read as numbers.

use bunos.Prelude.{false, ◌≡◌, refl, [], ◌∷◌, true, ok, fault, arith, replicate, ◌>>=◌}
use bunos.Libc.Ctype.{isspace, isalpha, isdigit, isxdigit, toupper}
use bunos.Libc.Strings.{strlen, strncmp, signed}
use bunos.Libc.Format.{to_string_unsigned}
use bunos.Libc.Format.Digits.{value_from, decimal, trim}
use bunos.Libc.Numbers.Overflow.{strtoll-fault}
use bunos.Libc.Numbers.RoundTrip.{strtoll-to_string_unsigned}
use bunos.Libc.Numbers.{
  strtol, strtoll, atoi, skip_spaces, detect_base, find_end, add_digits, pow_int, digit_value,
  mul_int, pos, negsuc,
}
use bunos.Libc.Numbers.Parse.{digit, none_left, digit_char, strtoll_lem}

-- "7f" to the base 16.
strtoll_lem_example : strtoll (0x37 ∷ 0x66 ∷ 0 ∷ []) true 16 ≡ ok (pos 127, 2)
unfolding digit_char value_from
strtoll_lem_example =
    strtoll_lem 16 7 (15 ∷ []) [] true (digit (omega arith) (digit (omega arith) none_left))
      (omega arith) (omega arith) (omega arith) (omega arith) (omega arith)

-- " -12"
atoi_negative : atoi (0x20 ∷ 0x2D ∷ 0x31 ∷ 0x32 ∷ 0 ∷ []) ≡ ok (negsuc 11)
unfolding atoi strtol strtoll skip_spaces detect_base find_end add_digits pow_int digit_value
    mul_int strlen isspace isalpha isdigit isxdigit toupper
atoi_negative = refl

-- "017" to the base 0 is taken for a number to the base 16.
strtoll_octal : strtoll (0x30 ∷ 0x31 ∷ 0x37 ∷ 0 ∷ []) true 0 ≡ ok (pos 7, 3)
unfolding strtoll skip_spaces detect_base find_end add_digits pow_int digit_value mul_int strlen
    strncmp signed isspace isalpha isdigit isxdigit toupper
strtoll_octal = refl

-- A text without a digit.
atoi_empty : atoi (0 ∷ []) ≡ fault
unfolding atoi strtol strtoll skip_spaces detect_base find_end add_digits pow_int digit_value
    mul_int strlen isspace isalpha isdigit isxdigit toupper
atoi_empty = refl

strtoll-to_string_unsigned_example :
    (to_string_unsigned (replicate 11 0) 0 2026 1 >>= λ r. strtoll r.1 true 10) ≡ ok (pos 2026, 4)
unfolding decimal trim
strtoll-to_string_unsigned_example = strtoll-to_string_unsigned 2026 true (omega arith)

-- The address c0101000, of the kernel's own code.
strtoll-fault_example :
    strtoll (0x63 ∷ 0x30 ∷ 0x31 ∷ 0x30 ∷ 0x31 ∷ 0x30 ∷ 0x30 ∷ 0x30 ∷ 0 ∷ []) false 16 ≡ fault
unfolding digit_char
strtoll-fault_example =
    strtoll-fault 16 12 (0 ∷ 1 ∷ 0 ∷ 1 ∷ 0 ∷ 0 ∷ 0 ∷ []) [] false
      (digit (omega arith) (
        digit (omega arith) (
          digit (omega arith) (
            digit (omega arith) (
              digit (omega arith)
                (digit (omega arith) (digit (omega arith) (digit (omega arith) none_left))))))))
      (omega arith) (omega arith) (omega arith) (omega arith) (omega arith)
