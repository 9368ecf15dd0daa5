-- ===== src/Libc/Format/Tests.antt =====
-- Small numbers and formats.
use bunos.Prelude.{◌≡◌, refl, some, [], ◌∷◌, ok, arith, replicate}
use bunos.Libc.Format.{word, sprintf_impl, string_to_padding}
use bunos.Libc.Format.Digits.{decimal, hexadecimal, trim}
use bunos.Libc.Format.Sprintf.{literal, percent, unsigned, lower_hex, upper_hex, sprintf_impl_lem}

padding_of_12 : string_to_padding (0x31 ∷ 0x32 ∷ 0x78 ∷ []) 2 ≡ ok 12
unfolding string_to_padding
padding_of_12 = refl

-- "a=%u%%%x%X" with 7, 171 and 171.
sprintf_impl_lem_example :
    sprintf_impl 13
      (replicate 10 1)
      (0x61 ∷ 0x3D ∷ 0x25 ∷ 0x75 ∷ 0x25 ∷ 0x25 ∷ 0x25 ∷ 0x78 ∷ 0x25 ∷ 0x58 ∷ 0 ∷ [])
      (word 7 ∷ word 171 ∷ word 171 ∷ [])
    ≡ ok (some (8, 0x61 ∷ 0x3D ∷ 0x37 ∷ 0x25 ∷ 0x61 ∷ 0x62 ∷ 0x41 ∷ 0x42 ∷ 0 ∷ 1 ∷ []))
unfolding decimal hexadecimal trim
sprintf_impl_lem_example =
    sprintf_impl_lem
      (literal 0x61 ∷ literal 0x3D ∷ unsigned 7 ∷ percent ∷ lower_hex 171 ∷ upper_hex 171 ∷ []) 13
      (replicate 10 1) (omega arith)
      (
        (λ e. omega arith, λ e. omega arith),
        ((λ e. omega arith, λ e. omega arith), (tt, (tt, (tt, (tt, tt))))),
      )
      (omega arith)
