-- ===== src/Libc/Numbers/Parse.antt =====
-- Numbers that strtoll reads back.
use mathlib.Core.List.{map}
use native.Mathlib.Nat.{
  mul-zero, pow-zero, pow-suc, pow-succ', mul_assoc, pow-le-pow_right, le-mul_of_pos_right,
}
use bunos.Prelude.{
  ◌>>=◌, ℕ, zero, suc, ◌+◌, ◌-◌, ◌*◌, ◌^◌, ◌≤◌, ◌<◌, ◌≡◌, refl, sym, ap, ◌∙◌, Bool, true, false,
  not, ◌&&◌, List, [], ◌∷◌, ◌++◌, ok, arith, ltb, leb, lt→ltb, ◌==◌, ◌!=◌, if◌then◌else◌, some,
  length, get_or, get_elem?, sub32, take, take_all, holds_below, holds_below_lem,
}
use bunos.Libc.Ctype.{isspace, isalpha, isdigit, isxdigit, toupper}
use bunos.Libc.Strings.Length.{IsText, empty, char, strlen_lem}
use bunos.Libc.Format.Digits.{value_from}
use bunos.Libc.Numbers.{
  mul_int, pow_int, pow_rounds, find_end, digit_value, add_digits, detect_base, skip_spaces,
  strtoll, pos,
}

-- The character of a digit, letters in lower case.
unfoldable pub digit_char : ℕ → ℕ
digit_char d = if ltb d 10 then 0x30 + d else 0x57 + d

plain : ℕ → Bool
plain d =
    let c = digit_char d in
    digit_value c == d
    && (isxdigit c && (not (c == 0) && (not (isspace c) && (not (c == 0x2D) && not (c == 0x2B)))))

plain_all : holds_below plain 36 ≡ true
unfolding holds_below plain digit_char digit_value isxdigit isspace isalpha isdigit toupper
plain_all = refl

-- Digits below the base.
pub data Digits (base : ℕ) : List ℕ → Type 0 where
  none_left : Digits base []
  digit : {d : ℕ} {ds : List ℕ} → d < base → Digits base ds → Digits base (d ∷ ds)

find_end_none : (base : ℕ) (tail : List ℕ) (i : ℕ) → find_end base (0 ∷ tail) i ≡ ok (i + 0)
unfolding find_end
find_end_none base tail i = ap ok (omega arith)

find_end_step :
    (base d : ℕ) (str : List ℕ) (i : ℕ)
    → d < base
    → base < 37
    → find_end base (digit_char d ∷ str) i ≡ find_end base str (i + 1)
unfolding find_end digit_char isalpha isdigit toupper
find_end_step base d str i h k = ground arith

find_end_lem :
    (base : ℕ) (ds : List ℕ) (tail : List ℕ) (i : ℕ)
    → Digits base ds
    → base < 37
    → find_end base (map digit_char ds ++ 0 ∷ tail) i ≡ ok (i + length ds)
find_end_lem base [] tail i none_left k = find_end_none base tail i
find_end_lem base (d ∷ ds) tail i (digit h more) k =
    find_end_step base d (map digit_char ds ++ 0 ∷ tail) i h k
    ∙ find_end_lem base ds tail (i + 1) more k
    ∙ ap ok (omega arith)

pow_rounds_lem :
    (base k val : ℕ)
    → 0 < base
    → val * base ^ k < 2 ^ 31
    → pow_rounds base k val ≡ ok (val * base ^ k)
unfolding pow_rounds mul_int
pow_rounds_lem base zero val positive h =
    let e : base ^ 0 ≡ 1 = pow-zero base in rw e (ap ok (omega arith))
pow_rounds_lem base (suc k) val positive h =
    let e : val * base ^ suc k ≡ val * base * base ^ k =
      ap (λ p. val * p) (pow-succ' base k) ∙ sym (mul_assoc val base (base ^ k)) in
    let all : val * base * base ^ k < 2 ^ 31 = rw (sym e) h in
    let least : 0 < base ^ k =
      omega (arith, pow-zero base, pow-le-pow_right positive {i = 0} {j = k} (omega arith)) in
    let step : val * base ≤ val * base * base ^ k =
      le-mul_of_pos_right {m = base ^ k} (val * base) least in
    let t : ltb (val * base) (2 ^ 31) ≡ true = lt→ltb _ _ (omega arith) in
    rw t (pow_rounds_lem base k (val * base) positive all ∙ ap ok (sym e))

pub pow_int_lem : (base k : ℕ) → 0 < base → base ^ k < 2 ^ 31 → pow_int base k ≡ ok (base ^ k)
unfolding pow_int
pow_int_lem base zero positive h = ap ok (sym (pow-zero base))
pow_int_lem base (suc k) positive h =
    let e : base ^ suc k ≡ base * base ^ k = pow-succ' base k in
    rw e (pow_rounds_lem base k base positive (rw (sym e) h))

value_from-snoc :
    (b acc : ℕ) (ds : List ℕ) (d : ℕ)
    → value_from b acc (ds ++ d ∷ []) ≡ value_from b acc ds * b + d
unfolding value_from
value_from-snoc b acc [] d = refl
value_from-snoc b acc (c ∷ ds) d = value_from-snoc b (acc * b + c) ds d

take-suc_snoc :
    (k : ℕ) (ds : List ℕ) → k < length ds → take (suc k) ds ≡ take k ds ++ get_or ds k 0 ∷ []
take-suc_snoc k [] h = absurd (omega arith)
take-suc_snoc zero (d ∷ ds) h = refl
take-suc_snoc (suc k) (d ∷ ds) h = ap (λ l. d ∷ l) (take-suc_snoc k ds (omega arith))

pub char_at :
    (ds tail : List ℕ) (k : ℕ)
    → k < length ds
    → get_elem? (map digit_char ds ++ tail) k ≡ some (digit_char (get_or ds k 0))
char_at [] tail k h = absurd (omega arith)
char_at (d ∷ ds) tail zero h = refl
char_at (d ∷ ds) tail (suc k) h = char_at ds tail k (omega arith)

pub Digits-get_or : (b : ℕ) (ds : List ℕ) (k : ℕ) → Digits b ds → k < length ds → get_or ds k 0 < b
Digits-get_or b [] k none_left h = absurd (omega arith)
Digits-get_or b (d ∷ ds) zero (digit less more) h = less
Digits-get_or b (d ∷ ds) (suc k) (digit less more) h = Digits-get_or b ds k more (omega arith)

-- What the tests of the code say of a digit's character.
pub digit_char_lem :
    (d : ℕ)
    → d < 36
    → (digit_value (digit_char d) ≡ d)
      × (isxdigit (digit_char d) ≡ true)
      × (isspace (digit_char d) ≡ false)
      × ((digit_char d == 0x2D) ≡ false)
      × ((digit_char d == 0x2B) ≡ false)
unfolding plain
digit_char_lem d h = let all = holds_below_lem plain 36 plain_all d h in ground arith

shift : (p v b d : ℕ) → p * (v * b + d) ≡ p * d + p * b * v
shift p v b d = grind arith

sums :
    (base i out v d w : ℕ)
    → w ≡ v * base + d
    → out + base ^ i * w ≡ out + base ^ i * d + base ^ (i + 1) * v
sums base i out v d w e =
    let next : base ^ (i + 1) ≡ base ^ i * base =
      ap (λ j. base ^ j) (omega arith) ∙ pow-suc base i in
    rw (e, next) (omega (arith, shift (base ^ i) v base d))

mul_int_lem : (a b : ℕ) → ltb (a * b) (2 ^ 31) ≡ true → mul_int a b ≡ ok (a * b)
unfolding mul_int
mul_int_lem a b h = rw h

-- One round of the loop, where what it adds fits an int.
pub add_digits_round :
    (base : ℕ) (ds tail : List ℕ) (k i out : ℕ)
    → Digits base ds
    → 1 < base
    → base < 37
    → suc k + i ≡ length ds
    → base ^ (length ds - 1) < 2 ^ 31
    → base ^ i * get_or ds k 0 < 2 ^ 31
    → add_digits (map digit_char ds ++ tail) base (length ds - 1) (suc k) i out
      ≡ add_digits
          (map digit_char ds ++ tail)
          base
          (length ds - 1)
          k
          (i + 1)
          (out + base ^ i * get_or ds k 0)
unfolding add_digits
add_digits_round base ds tail k i out digits low high place short small =
    let power : base ^ i ≤ base ^ (length ds - 1) =
      pow-le-pow_right (omega arith) {i = i} {j = length ds - 1} (omega arith) in
    let d = Digits-get_or base ds k digits (omega arith) in
    let (value, hex, space, minus, plus) = digit_char_lem (get_or ds k 0) (omega arith) in
    let index : length ds - 1 - i ≡ k = omega arith in
    let product : ltb (base ^ i * get_or ds k 0) (2 ^ 31) ≡ true = lt→ltb _ _ small in
    rw (
      pow_int_lem base i (omega arith) (omega arith),
      index,
      char_at ds tail k (omega arith),
      value,
      mul_int_lem (base ^ i) (get_or ds k 0) product,
      hex,
    )

add_digits_lem :
    (base : ℕ) (ds tail : List ℕ) (k i out : ℕ)
    → Digits base ds
    → 1 < base
    → base < 37
    → k + i ≡ length ds
    → base ^ (length ds - 1) < 2 ^ 31
    → out + base ^ i * value_from base 0 (take k ds) < 2 ^ 31
    → add_digits (map digit_char ds ++ tail) base (length ds - 1) k i out
      ≡ ok (out + base ^ i * value_from base 0 (take k ds))
unfolding add_digits value_from
add_digits_lem base ds tail zero i out digits low high place short small =
    let none : base ^ i * 0 ≡ 0 = mul-zero (base ^ i) in rw none (ap ok (omega arith))
add_digits_lem base ds tail (suc k) i out digits low high place short small =
    let whole =
      ap (value_from base 0) (take-suc_snoc k ds (omega arith))
      ∙ value_from-snoc base 0 (take k ds) (get_or ds k 0) in
    let sum = sums base i out (value_from base 0 (take k ds)) (get_or ds k 0) _ whole in
    add_digits_round base ds tail k i out digits low high place short (omega arith)
    ∙ add_digits_lem base ds tail k (i + 1) (out + base ^ i * get_or ds k 0) digits low high
        (omega arith) short (omega arith)
    ∙ ap ok (sym sum)

IsText-digits : (base : ℕ) (ds : List ℕ) → Digits base ds → base < 37 → IsText (map digit_char ds)
unfolding digit_char
IsText-digits base [] none_left h = empty
IsText-digits base (d ∷ ds) (digit less more) h =
    char (ground arith) (ground arith) (IsText-digits base ds more h)

-- The loop from its start.
add_digits_total :
    (base : ℕ) (ds tail : List ℕ) (n : ℕ)
    → Digits base ds
    → 1 < base
    → base < 37
    → length ds ≡ n + 1
    → base ^ n < 2 ^ 31
    → value_from base 0 ds < 2 ^ 31
    → add_digits (map digit_char ds ++ tail) base n (n + 1) 0 0 ≡ ok (value_from base 0 ds)
add_digits_total base ds tail n digits low high long short small =
    let all : take (n + 1) ds ≡ ds = take_all (n + 1) ds (omega arith) in
    let last : length ds - 1 ≡ n = omega arith in
    let sum : 0 + base ^ 0 * value_from base 0 (take (n + 1) ds) ≡ value_from base 0 ds =
      rw (all, pow-zero base) (omega arith) in
    let run =
      add_digits_lem base ds tail (n + 1) 0 0 digits low high (omega arith) (rw last short)
        (rw sum small) in
    let run' : add_digits (map digit_char ds ++ tail) base n (n + 1) 0 0
        ≡ ok (0 + base ^ 0 * value_from base 0 (take (n + 1) ds)) =
      rw last at run in
    run' ∙ ap ok sum

no_digits : (has_endptr : Bool) (n : ℕ) → (has_endptr && (suc n == 0)) ≡ false
no_digits has_endptr n = ground arith

-- On digits strtoll comes to its loop.
pub strtoll_runs :
    (base d : ℕ) (ds tail : List ℕ) (has_endptr : Bool)
    → Digits base (d ∷ ds)
    → 1 < base
    → base < 36
    → length ds < 2 ^ 31
    → strtoll (map digit_char (d ∷ ds) ++ 0 ∷ tail) has_endptr base ≡ (
        add_digits (map digit_char (d ∷ ds) ++ 0 ∷ tail) base (length ds) (length ds + 1) 0 0
        >>= λ out. ok (pos out, length (d ∷ ds)))
unfolding strtoll skip_spaces detect_base
strtoll_runs base d ds tail has_endptr (digit less more) low high few =
    let (value, hex, space, minus, plus) = digit_char_lem d (omega arith) in
    let text = strlen_lem tail (IsText-digits base (d ∷ ds) (digit less more) (omega arith)) in
    let end = find_end_lem base (d ∷ ds) tail 0 (digit less more) (omega arith) in
    let nonzero : (base == 0) ≡ false = ground arith in
    let nonzero' : (base != 0) ≡ true = ground arith in
    let large : ltb base 2 ≡ false = ground arith in
    let bounded : leb 36 base ≡ false = ground arith in
    let n : 0 + suc (length ds) ≡ suc (length ds) = omega arith in
    let digits : sub32 (suc (length ds) - 0) 1 ≡ length ds = omega arith in
    rw (
      nonzero',
      large,
      bounded,
      space,
      minus,
      plus,
      text,
      nonzero,
      end,
      n,
      no_digits has_endptr (length ds),
      digits,
    )

-- strtoll reads back the number that digits stand for, letters in lower case, to every base from 2
-- to 35, and gives the index behind the last digit; the powers of the base and the number must fit
-- an int.
pub strtoll_lem :
    (base d : ℕ) (ds tail : List ℕ) (has_endptr : Bool)
    → Digits base (d ∷ ds)
    → 1 < base
    → base < 36
    → length ds < 2 ^ 31
    → base ^ length ds < 2 ^ 31
    → value_from base 0 (d ∷ ds) < 2 ^ 31
    → strtoll (map digit_char (d ∷ ds) ++ 0 ∷ tail) has_endptr base
      ≡ ok (pos (value_from base 0 (d ∷ ds)), length (d ∷ ds))
strtoll_lem base d ds tail has_endptr digits low high few short small =
    let sum =
      add_digits_total base (d ∷ ds) (0 ∷ tail) (length ds) digits low (omega arith) (omega arith)
        short small in
    strtoll_runs base d ds tail has_endptr digits low high few ∙ rw sum
