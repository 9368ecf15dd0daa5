-- ===== src/Libc/Format.antt =====
-- The formatter of libc/stdio.cpp. A buffer is an array of bytes and an index into it. A variable
-- argument list is a list of arguments; taking one of another type, or none, is a fault.
pub mod Digits
pub mod Numbers
pub mod Sprintf
mod Tests
use bunos.Prelude.{
  ℕ, zero, suc, ◌+◌, ◌-◌, ◌*◌, ◌/◌, ◌%◌, ◌^◌, Bool, true, false, not, ◌&&◌, ◌||◌, Option, some,
  none, List, [], ◌∷◌, Result, ok, fault, timeout, ◌>>=◌, ◌>>◌, check, access, store, get_elem?,
  get_or, drop, ltb, leb, ◌==◌, ◌!=◌, if◌then◌else◌, mul32, add32, u8,
}
use bunos.Libc.Memory.{memcpy}
use bunos.Libc.Strings.{strlen}

unfoldable pub is_digit : ℕ → Bool
is_digit c = leb 0x30 c && leb c 0x39

-- How many digits a string begins with.
unfoldable pub bytes_to_specifier : List ℕ → Result ℕ
unfolding is_digit
bytes_to_specifier [] = fault
bytes_to_specifier (c ∷ buf) =
    let rest = bytes_to_specifier buf in
    if c != 0 && is_digit c then (do out ← rest; ok (out + 1)) else ok 0

-- The loop of `pow`, `k` multiplications.
pow_rounds : ℕ → ℕ → ℕ → ℕ
pow_rounds x zero out = out
pow_rounds x (suc k) out = pow_rounds x k (mul32 out x)

-- The file's own `pow`, on `size_t`.
unfoldable pub size_pow : ℕ → ℕ → ℕ
unfolding pow_rounds
size_pow x zero = 1
size_pow x (suc y) = pow_rounds x y x

-- Digit `i` and the `k - 1` ones after it.
padding_loop : List ℕ → ℕ → ℕ → ℕ → ℕ → Result ℕ
unfolding is_digit size_pow
padding_loop s digits zero i out = ok out
padding_loop s digits (suc k) i out = do
  c ← access (get_elem? s i)
  check (is_digit c)
  padding_loop s digits k (i + 1) (add32 out (mul32 (c - 0x30) (size_pow 10 (digits - i - 1))))

unfoldable pub string_to_padding : List ℕ → ℕ → Result ℕ
unfolding padding_loop
string_to_padding s digits = padding_loop s digits digits 0 0

-- A hexadecimal digit as `to_string_hex` stores it.
unfoldable pub nibble_char : ℕ → Bool → ℕ
nibble_char nibble uppercase =
    let c =
      if nibble == 0 then 0x30 else if leb nibble 9 then 0x30 + nibble else 0x41 + (nibble - 0xA) in
    if not uppercase && leb 0x41 c then c + 0x20 else c

module _ (v padding : ℕ) (uppercase : Bool) (base : ℕ) where
  -- Nibble `i` of eight, and the `k - 1` ones after it.
  hex_loop : ℕ → ℕ → List ℕ → ℕ → Bool → Result (ℕ × List ℕ)
  unfolding nibble_char
  hex_loop zero i buffer index has_written = ok (index, buffer)
  hex_loop (suc k) i buffer index has_written =
      let nibble = v / 2 ^ ((8 - i) * 4) % 16 in
      let skip = hex_loop k (i + 1) buffer index has_written in
      let put : Result (ℕ × List ℕ) = (do
        buffer' ← store buffer (base + index) (nibble_char nibble uppercase)
        hex_loop k (i + 1) buffer' (index + 1) (has_written || nibble != 0)) in
      if nibble == 0 && not has_written && not (ltb (8 - i) padding) then skip else put

-- The number of bytes stored, and the buffer.
unfoldable pub to_string_hex : List ℕ → ℕ → ℕ → ℕ → Bool → Result (ℕ × List ℕ)
unfolding hex_loop
to_string_hex buffer base v padding uppercase = hex_loop v padding uppercase base 8 1 buffer 0 false

module _ (v padding base : ℕ) where
  -- Digit `i` of ten, and the `k - 1` ones after it.
  decimal_loop : ℕ → ℕ → List ℕ → ℕ → Bool → Result (ℕ × List ℕ)
  decimal_loop zero i buffer index has_written = ok (index, buffer)
  decimal_loop (suc k) i buffer index has_written =
      let digit = v / size_pow 10 (10 - i) % 10 in
      let skip = decimal_loop k (i + 1) buffer index has_written in
      let put : Result (ℕ × List ℕ) = (do
        buffer' ← store buffer (base + index) (0x30 + digit)
        decimal_loop k (i + 1) buffer' (index + 1) (has_written || digit != 0)) in
      if digit == 0 && not has_written && not (ltb (10 - i) padding) then skip else put

unfoldable pub to_string_unsigned : List ℕ → ℕ → ℕ → ℕ → Result (ℕ × List ℕ)
unfolding decimal_loop
to_string_unsigned buffer base v padding = decimal_loop v padding base 10 1 buffer 0 false

-- An `int` is given as its 32 bits.
unfoldable pub to_string_signed : List ℕ → ℕ → ℕ → ℕ → Result (ℕ × List ℕ)
unfolding to_string_unsigned
to_string_signed buffer base v padding =
    if leb (2 ^ 31) v
    then (do
      buffer' ← store buffer base 0x2D
      (n, buffer'') ← to_string_unsigned buffer' (base + 1) ((2 ^ 32 - v) % 2 ^ 32) padding
      ok (n + 1, buffer''))
    else to_string_unsigned buffer base v padding

-- What a caller passes after the format: a number of 32 bits, or a string.
pub data Arg : Type 0 where
  word : ℕ → Arg
  text : List ℕ → Arg

unfoldable pub next_word : List Arg → Result (ℕ × List Arg)
next_word (word v ∷ args) = ok (v, args)
next_word (text s ∷ args) = fault
next_word [] = fault

unfoldable pub next_text : List Arg → Result (List ℕ × List Arg)
next_text (text s ∷ args) = ok (s, args)
next_text (word v ∷ args) = fault
next_text [] = fault

-- The buffer, the offset into it and the arguments left.
pub record Output : Type 0 where
  pub buffer : List ℕ
  pub offset : ℕ
  pub args : List Arg

-- `*offset += f(buffer + *offset, va_arg(*args, unsigned), ...)`.
unfoldable pub print_word : (List ℕ → ℕ → ℕ → Result (ℕ × List ℕ)) → Output → Result (Option Output)
unfolding next_word
print_word f o = do
  (v, args') ← next_word o.args
  (n, buffer') ← f o.buffer o.offset v
  ok (some (record { buffer = buffer'; offset = o.offset + n; args = args' }))

-- `none` is the result false.
unfoldable pub handle_integer : Output → ℕ → ℕ → Result (Option Output)
unfolding print_word
handle_integer o format padding =
    if format == 0x78
    then print_word (λ b i v. to_string_hex b i v padding false) o
    else if format == 0x58
    then print_word (λ b i v. to_string_hex b i v padding true) o
    else if format == 0x69 || format == 0x64
    then print_word (λ b i v. to_string_signed b i v padding) o
    else if format == 0x75
    then print_word (λ b i v. to_string_unsigned b i v padding) o
    else if format == 0x70
    then (do
      (v, args') ← next_word o.args
      b1 ← store o.buffer o.offset 0x30
      b2 ← store b1 (o.offset + 1) 0x78
      (n, b3) ← to_string_hex b2 (o.offset + 2) v 8 true
      ok (some (record { buffer = b3; offset = o.offset + 2 + n; args = args' })))
    else ok none

unfoldable pub handle_other : Output → ℕ → Result (Option Output)
unfolding next_text next_word
handle_other o format =
    if format == 0x73
    then (do
      (arg, args') ← next_text o.args
      len ← strlen arg
      buffer' ← memcpy o.buffer o.offset arg 0 len
      ok (some (record { buffer = buffer'; offset = o.offset + len; args = args' })))
    else if format == 0x63
    then (do
      (arg, args') ← next_word o.args
      buffer' ← store o.buffer o.offset (u8 arg)
      ok (some (record { buffer = buffer'; offset = o.offset + 1; args = args' })))
    else if format == 0x25
    then (do
      buffer' ← store o.buffer o.offset 0x25
      ok (some (record o { buffer = buffer'; offset = o.offset + 1 })))
    else ok none

-- The conversion that `format` points to; the result is where the format goes on.
unfoldable pub convert : List ℕ → ℕ → Output → Result (Option (List ℕ × Output))
unfolding handle_integer handle_other
convert format padding o = do
  c ← access (get_elem? format 0)
  number ← handle_integer o c padding
  done ← elim number [ some o' ↦ ok (some o') | none ↦ handle_other o c ]
  elim done [ some o' ↦ ok (some (drop 1 format, o')) | none ↦ ok none ]

-- The part of the loop behind a `%`: `none` is the result -1. The message about a character that
-- is not known goes to the console and is left out.
unfoldable pub specifier : List ℕ → Output → Result (Option (List ℕ × Output))
unfolding convert bytes_to_specifier string_to_padding
specifier format o = do
  c ← access (get_elem? format 0)
  if c == 0
      then ok none
      else if c == 0x2E
      then (do
        let format' = drop 1 format
        c' ← access (get_elem? format' 0)
        if c' == 0 then ok none else (do
          padding_len ← bytes_to_specifier format'
          padding ← string_to_padding format' padding_len
          convert (drop padding_len format') padding o))
      else convert format 1 o

-- Every round takes at least one character, so the length of the format is enough fuel.
unfoldable pub format_loop : ℕ → List ℕ → Output → Result (Option Output)
unfolding specifier
format_loop zero format o = timeout
format_loop (suc fuel) [] o = fault
format_loop (suc fuel) (c ∷ format) o = elim (c == 0) [
  | true ↦ ok (some o)
  | false ↦ elim (c == 0x25) [
    | true ↦ do
      next ← specifier format o
      elim next [ none ↦ ok none | some (format', o') ↦ format_loop fuel format' o' ]
    | false ↦ do
      buffer' ← store o.buffer o.offset c
      format_loop fuel format (record o { buffer = buffer'; offset = o.offset + 1 })
  ]
]

-- The length of the text and the buffer, or `none` for -1.
unfoldable pub sprintf_impl : ℕ → List ℕ → List ℕ → List Arg → Result (Option (ℕ × List ℕ))
unfolding format_loop
sprintf_impl fuel buffer format args = do
  out ← format_loop fuel format (record { buffer = buffer; offset = 0; args = args })
  elim out [
    | none ↦ ok none
    | some o ↦ do buffer' ← store o.buffer o.offset 0; ok (some (o.offset, buffer'))
  ]
