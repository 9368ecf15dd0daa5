-- ===== src/Libc/Format/Sprintf.antt =====
-- What `sprintf` makes of a format that is written for its arguments.
use bunos.Prelude.{
  length-map, ℕ, zero, suc, ◌+◌, ◌≤◌, ◌<◌, ◌≡◌, ◌≢◌, refl, sym, ap, ap₂, ◌∙◌, true, false, some,
  List, [], ◌∷◌, ◌++◌, ok, ◌>>=◌, store, length, set, overwrite, overwrite-nil, overwrite-set,
  overwrite-overwrite, length-overwrite, length-append, append_assoc, take, drop, take-append_exact,
  arith, u8, ◌*◌, ◌^◌, ◌/◌, ◌%◌, ◌-◌, ◌==◌, ◌&&◌, not, ltb, Bool-cases, inl, inr, if◌then◌else◌,
}
use mathlib.Core.List.{map}
use bunos.Libc.Memory.Copy.{store_ok, memcpy_lem}
use bunos.Libc.Strings.Length.{IsText, strlen_lem}
use bunos.Libc.Format.{Arg, word, text, Output, nibble_char, format_loop, sprintf_impl}
use bunos.Libc.Format.Digits.{decimal, hexadecimal, trim, digits_of}
use bunos.Libc.Format.Numbers.{to_string_unsigned_lem, to_string_hex_lem}

-- The parts of a format, each with the argument that belongs to it.
pub data Item : Type 0 where
  literal : ℕ → Item
  percent : Item
  unsigned : ℕ → Item
  lower_hex upper_hex : ℕ → Item
  character : ℕ → Item
  string : List ℕ → Item

-- `%u`, `%x`, `%X`, `%c`, `%s`, `%%`, or the character itself.
abbrev pub format_of : Item → List ℕ
format_of (literal c) = c ∷ []
format_of percent = 0x25 ∷ 0x25 ∷ []
format_of (unsigned v) = 0x25 ∷ 0x75 ∷ []
format_of (lower_hex v) = 0x25 ∷ 0x78 ∷ []
format_of (upper_hex v) = 0x25 ∷ 0x58 ∷ []
format_of (character c) = 0x25 ∷ 0x63 ∷ []
format_of (string s) = 0x25 ∷ 0x73 ∷ []

abbrev pub args_of : Item → List Arg
args_of (literal c) = []
args_of percent = []
args_of (unsigned v) = word v ∷ []
args_of (lower_hex v) = word v ∷ []
args_of (upper_hex v) = word v ∷ []
args_of (character c) = word c ∷ []
args_of (string s) = text (s ++ 0 ∷ []) ∷ []

-- The hexadecimal digits in ASCII: 0 to 9, and a to f or A to F.
abbrev pub lower_digit : ℕ → ℕ
lower_digit d = if ltb d 10 then 0x30 + d else 0x61 + (d - 10)

abbrev pub upper_digit : ℕ → ℕ
upper_digit d = if ltb d 10 then 0x30 + d else 0x41 + (d - 10)

abbrev pub text_of : Item → List ℕ
text_of (literal c) = c ∷ []
text_of percent = 0x25 ∷ []
text_of (unsigned v) = map (λ d. 0x30 + d) (decimal v 1)
text_of (lower_hex v) = map lower_digit (hexadecimal v 1)
text_of (upper_hex v) = map upper_digit (hexadecimal v 1)
text_of (character c) = u8 c ∷ []
text_of (string s) = s

-- A literal is no 0 and no `%`, and a string is one.
abbrev pub IsPlain : Item → Type 0
IsPlain (literal c) = (c ≢ 0) × (c ≢ 0x25)
IsPlain (string s) = IsText s
IsPlain _ = Unit {0}

-- All parts, one after the other.
abbrev pub concat : {A : Type 0} → (Item → List A) → List Item → List A
concat f [] = []
concat f (i ∷ is) = f i ++ concat f is

abbrev pub All : (Item → Type 0) → List Item → Type 0
All P [] = Unit {0}
All P (i ∷ is) = P i × All P is

-- What storing the text of an item does to the output.
abbrev after : Output → List ℕ → List Arg → Output
after o t more = record {
  buffer = overwrite o.buffer o.offset t;
  offset = o.offset + length t;
  args = more;
}

overwrite-one : (b : List ℕ) (p x : ℕ) → set b p x ≡ overwrite b p (x ∷ [])
overwrite-one b p x = sym (overwrite-nil (set b p x) (suc p)) ∙ overwrite-set b p x []

literal_round :
    (c fuel : ℕ) (rest : List ℕ) (o : Output)
    → c ≢ 0
    → c ≢ 0x25
    → format_loop (suc fuel) (c ∷ rest) o ≡ (
        store o.buffer o.offset c >>= λ buffer'.
        format_loop fuel rest (record o { buffer = buffer'; offset = o.offset + 1 }))
unfolding format_loop
literal_round c fuel rest o nz np = ground arith

lower_char : (d : ℕ) → d < 16 → nibble_char d false ≡ lower_digit d
unfolding nibble_char
lower_char d h = ground arith

upper_char : (d : ℕ) → d < 16 → nibble_char d true ≡ upper_digit d
unfolding nibble_char
upper_char d h = ground arith

-- Two functions that agree on digits agree on the digits of a number.
map-trim :
    (f g : ℕ → ℕ) (padding k v : ℕ)
    → ((d : ℕ) → d < 16 → f d ≡ g d)
    → map f (trim padding (digits_of (λ j. 2 ^ (j * 4)) 16 k v))
      ≡ map g (trim padding (digits_of (λ j. 2 ^ (j * 4)) 16 k v))
unfolding trim
map-trim f g padding k v same = go k
  where
    whole :
        (k : ℕ)
        → map f (digits_of (λ j. 2 ^ (j * 4)) 16 k v) ≡ map g (digits_of (λ j. 2 ^ (j * 4)) 16 k v)
    whole zero = refl
    whole (suc k) = ap₂ (λ x xs. x ∷ xs) (same _ (omega arith)) (whole k)

    go :
        (k : ℕ)
        → map f (trim padding (digits_of (λ j. 2 ^ (j * 4)) 16 k v))
          ≡ map g (trim padding (digits_of (λ j. 2 ^ (j * 4)) 16 k v))
    go zero = refl
    go (suc k) =
        let d = v / 2 ^ (k * 4) % 16 in
        let ds = digits_of (λ j. 2 ^ (j * 4)) 16 k v in
        elim (Bool-cases (d == 0 && not (ltb (length ds) padding))) [
          | inl t ↦ rw t (go k)
          | inr t ↦ rw t (whole (suc k))
        ]

hexadecimal_chars :
    (f g : ℕ → ℕ) (v : ℕ)
    → ((d : ℕ) → d < 16 → f d ≡ g d)
    → map f (hexadecimal v 1) ≡ map g (hexadecimal v 1)
unfolding hexadecimal
hexadecimal_chars f g v same = map-trim f g 1 8 v same

-- One round of the loop takes one item.
format_loop-item :
    (i : Item) (fuel : ℕ) (rest : List ℕ) (more : List Arg) (b : List ℕ) (p : ℕ)
    → IsPlain i
    → p + length (text_of i) ≤ length b
    → format_loop
        (suc fuel)
        (format_of i ++ rest)
        (record { buffer = b; offset = p; args = args_of i ++ more })
      ≡ format_loop fuel rest
          (after (record { buffer = b; offset = p; args = more }) (text_of i) more)
unfolding format_loop
format_loop-item (literal c) fuel rest more b p (nz, np) room =
    literal_round c fuel rest (record { buffer = b; offset = p; args = more }) nz np
    ∙ rw (store_ok b p c (omega arith), overwrite-one b p c)
format_loop-item percent fuel rest more b p h room =
    rw (store_ok b p 0x25 (omega arith), overwrite-one b p 0x25)
format_loop-item (unsigned v) fuel rest more b p h room =
    let n = length-map (λ d. 0x30 + d) (decimal v 1) in
    rw (to_string_unsigned_lem b p v 1 (omega (arith, n)), n)
format_loop-item (lower_hex v) fuel rest more b p h room =
    let n = length-map lower_digit (hexadecimal v 1) in
    let chars = hexadecimal_chars (λ d. nibble_char d false) lower_digit v lower_char in
    let plain = length-map (λ d. nibble_char d false) (hexadecimal v 1) in
    rw (rw chars at (to_string_hex_lem b p v 1 false (omega (arith, n, ap length chars, plain))), n)
format_loop-item (upper_hex v) fuel rest more b p h room =
    let n = length-map upper_digit (hexadecimal v 1) in
    let chars = hexadecimal_chars (λ d. nibble_char d true) upper_digit v upper_char in
    let plain = length-map (λ d. nibble_char d true) (hexadecimal v 1) in
    rw (rw chars at (to_string_hex_lem b p v 1 true (omega (arith, n, ap length chars, plain))), n)
format_loop-item (character c) fuel rest more b p h room =
    rw (store_ok b p (u8 c) (omega arith), overwrite-one b p (u8 c))
format_loop-item (string s) fuel rest more b p h room =
    let copied =
      memcpy_lem b p (s ++ 0 ∷ []) 0 (length s) room (omega (arith, length-append s (0 ∷ []))) in
    let part : take (length s) (drop 0 (s ++ 0 ∷ [])) ≡ s =
      take-append_exact (length s) s (0 ∷ []) refl in
    rw (strlen_lem [] h, copied, part)

length-le-format : (is : List Item) → length is ≤ length (concat format_of is)
length-le-format [] = omega arith
length-le-format (literal c ∷ is) = omega (arith, length-le-format is)
length-le-format (percent ∷ is) = omega (arith, length-le-format is)
length-le-format (unsigned v ∷ is) = omega (arith, length-le-format is)
length-le-format (lower_hex v ∷ is) = omega (arith, length-le-format is)
length-le-format (upper_hex v ∷ is) = omega (arith, length-le-format is)
length-le-format (character c ∷ is) = omega (arith, length-le-format is)
length-le-format (string s ∷ is) = omega (arith, length-le-format is)

format_loop-end :
    (fuel : ℕ) (b : List ℕ) (p : ℕ)
    → format_loop (suc fuel) (0 ∷ []) (record { buffer = b; offset = p; args = [] })
      ≡ ok (some (after (record { buffer = b; offset = p; args = [] }) [] []))
unfolding format_loop
format_loop-end fuel b p =
    ap₂ (λ buf k. ok (some (record { buffer = buf; offset = k; args = [] })))
      (sym (overwrite-nil b p)) (omega arith)

format_loop-items :
    (is : List Item) (fuel : ℕ) (b : List ℕ) (p : ℕ)
    → length is < fuel
    → All IsPlain is
    → p + length (concat text_of is) ≤ length b
    → format_loop fuel
        (concat format_of is ++ 0 ∷ [])
        (record { buffer = b; offset = p; args = concat args_of is })
      ≡ ok (some (after (record { buffer = b; offset = p; args = [] }) (concat text_of is) []))
format_loop-items is zero b p more h room = absurd (omega arith)
format_loop-items [] (suc fuel) b p more h room = format_loop-end fuel b p
format_loop-items (i ∷ is) (suc fuel) b p more (h, hs) room =
    let t = text_of i in
    let n = length-append t (concat text_of is) in
    let here =
      format_loop-item i fuel (concat format_of is ++ 0 ∷ []) (concat args_of is) b p h
        (omega (arith, n)) in
    let rest =
      format_loop-items is fuel (overwrite b p t) (p + length t) (omega arith) hs
        (omega (arith, n, length-overwrite {0} b p t)) in
    rw
      (
        append_assoc (format_of i) (concat format_of is) (0 ∷ []),
        here,
        rest,
        overwrite-overwrite b p t (concat text_of is),
        n,
      )
      (ap
        (λ k. ok (
          some (record { buffer = overwrite b p (t ++ concat text_of is); offset = k; args = [] })))
        (omega arith))

-- On a format made of these parts, with an argument for each, and with more fuel than characters of
-- the format, `sprintf` returns the length of the text, and the buffer, if there is room in it,
-- then holds the text and a 0 behind it, the rest being as it was. The
-- digits of `%x` are 0 to 9 and a to f in ASCII, those of `%X` 0 to 9 and A to F.
pub sprintf_impl_lem :
    (is : List Item) (fuel : ℕ) (b : List ℕ)
    → length (concat format_of is) < fuel
    → All IsPlain is
    → length (concat text_of is) < length b
    → sprintf_impl fuel b (concat format_of is ++ 0 ∷ []) (concat args_of is)
      ≡ ok (some (length (concat text_of is), overwrite b 0 (concat text_of is ++ 0 ∷ [])))
unfolding sprintf_impl
sprintf_impl_lem is fuel b more h room =
    let t = concat text_of is in
    let looped =
      format_loop-items is fuel b 0 (omega (arith, length-le-format is)) h (omega arith) in
    let e : 0 + length t ≡ length t = omega arith in
    let stored =
      store_ok (overwrite b 0 t) (length t) 0 (omega (arith, length-overwrite {0} b 0 t)) in
    let joined : set (overwrite b 0 t) (length t) 0 ≡ overwrite b 0 (t ++ 0 ∷ []) =
      overwrite-one (overwrite b 0 t) (length t) 0
      ∙ (rw e at (overwrite-overwrite b 0 t (0 ∷ []))) in
    rw (looped, e, stored, joined)
