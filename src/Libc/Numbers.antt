-- ===== src/Libc/Numbers.antt =====
-- The number parsing of libc/stdlib.cpp, and bu::pow of bustd/math.hpp at the type int. A text is
-- the list of its bytes and ends with a 0. An int that runs over its 32 bits is left undefined by
-- the language, and a fault here; the sum is a `long long`, which the digits of an int cannot run
-- over.
pub mod Parse
pub mod RoundTrip
pub mod Overflow
mod Tests
use bunos.Prelude.{
  ℕ, zero, suc, ◌+◌, ◌-◌, ◌*◌, ◌%◌, ◌^◌, Bool, true, false, ◌&&◌, ◌||◌, not, Option, List, [], ◌∷◌,
  Result, ok, fault, ◌>>=◌, ◌>>◌, check, access, ltb, leb, ◌==◌, ◌!=◌, if◌then◌else◌, get_elem?,
  drop, sub32,
}
use bunos.Libc.Ctype.{isspace, isalpha, isdigit, isxdigit, toupper}
use bunos.Libc.Strings.{strlen, strncmp, Sign, same}

pub data ℤ : Type 0 where
  pos : ℕ → ℤ
  negsuc : ℕ → ℤ

unfoldable pub negate : ℕ → ℤ
negate zero = pos zero
negate (suc n) = negsuc n

-- A product of two ints that are not negative.
unfoldable pub mul_int : ℕ → ℕ → Result ℕ
mul_int a b = if ltb (a * b) (2 ^ 31) then ok (a * b) else fault

pow_rounds : ℕ → ℕ → ℕ → Result ℕ
pow_rounds base zero val = ok val
pow_rounds base (suc k) val = do val' ← mul_int val base; pow_rounds base k val'

unfoldable pub pow_int : ℕ → ℕ → Result ℕ
unfolding pow_rounds mul_int
pow_int base zero = ok 1
pow_int base (suc k) = pow_rounds base k base

-- The first byte at or behind index `i` that is no white space.
unfoldable pub skip_spaces : List ℕ → ℕ → Result ℕ
skip_spaces [] i = fault
skip_spaces (c ∷ str) i = if isspace c then skip_spaces str (i + 1) else ok i

-- The byte behind the digits, by the code's own tests.
unfoldable pub find_end : ℕ → List ℕ → ℕ → Result ℕ
find_end base [] i = fault
find_end base (c ∷ str) i =
    let rest = find_end base str (i + 1) in
    if c == 0
    then ok i
    else if isalpha c
    then (if ltb base (toupper c - 0x41) then ok i else rest)
    else if isdigit c
    then (if ltb base (c - 0x30) then ok i else rest)
    else ok i

-- Which digit a character is to the loop.
unfoldable pub digit_value : ℕ → ℕ
digit_value c = if isdigit c then c - 0x30 else toupper c - 0x41 + 10

-- The loop that adds the digits up, the last one first; `digits` is the index of that one. `k` rounds.
unfoldable pub add_digits : List ℕ → ℕ → ℕ → ℕ → ℕ → ℕ → Result ℕ
add_digits number base digits zero i out = ok out
add_digits number base digits (suc k) i out = do
  pow ← pow_int base i
  digit ← access (get_elem? number (digits - i))
  to_add ← mul_int pow (digit_value digit)
  check (isxdigit digit)
  add_digits number base digits k (i + 1) (out + to_add)

-- The base, and where the digits start, for base 0.
unfoldable pub detect_base : List ℕ → ℕ → ℕ → Result (ℕ × ℕ)
detect_base ptr current base = do
  len ← strlen (drop current ptr)
  let zero_first : Result (ℕ × ℕ) = (do
    c ← access (get_elem? ptr current)
    ok (if leb 1 len && c == 0x30 then 8 else base, current))
  let detected : Result (ℕ × ℕ) = (do
    sign ← (if ltb 2 len then strncmp (drop current ptr) (0x30 ∷ 0x78 ∷ 0 ∷ []) 2 else ok Sign.less)
    elim sign [ same ↦ ok (16, current + 2) | _ ↦ zero_first ])
  if base == 0 then detected else ok (base, current)

-- The number, and the index that `*endptr` gets; `has_endptr` is `endptr != nullptr`. Without a digit
-- `digits` wraps around.
unfoldable pub strtoll : List ℕ → Bool → ℕ → Result (ℤ × ℕ)
unfolding negate
strtoll ptr has_endptr base = do
  let parse : Result (ℤ × ℕ) = (do
    start ← skip_spaces ptr 0
    c ← access (get_elem? ptr start)
    let negative = c == 0x2D
    (base', current) ← detect_base ptr (if negative || c == 0x2B then start + 1 else start) base
    end ← find_end base' (drop current ptr) current
    let digits = sub32 (end - current) 1
    let convert : Result (ℤ × ℕ) = (do
      out ← add_digits (drop current ptr) base' digits (digits + 1) 0 0
      ok (if negative then negate out else pos out, end))
    if has_endptr && end == 0 then ok (pos 0, 0) else convert)
  if (base != 0 && ltb base 2) || leb 36 base then ok (pos 0, 0) else parse

-- A `long` of 32 bits from its word, and a `long long` cut down to one.
unfoldable pub of_word : ℕ → ℤ
of_word w = if ltb w (2 ^ 31) then pos w else negsuc (2 ^ 32 - 1 - w)

unfoldable pub to_long : ℤ → ℤ
unfolding of_word
to_long (pos n) = of_word (n % 2 ^ 32)
to_long (negsuc n) = of_word (2 ^ 32 - 1 - n % 2 ^ 32)

unfoldable pub strtol : List ℕ → Bool → ℕ → Result (ℤ × ℕ)
unfolding to_long
strtol ptr has_endptr base = do (out, end) ← strtoll ptr has_endptr base; ok (to_long out, end)

unfoldable pub atoi : List ℕ → Result ℤ
atoi ptr = do (out, end) ← strtol ptr false 10; ok out

unfoldable pub atol : List ℕ → Result ℤ
atol ptr = do (out, end) ← strtol ptr false 10; ok out

unfoldable pub atoll : List ℕ → Result ℤ
atoll ptr = do (out, end) ← strtoll ptr false 10; ok out
