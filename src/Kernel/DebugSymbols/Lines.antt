-- ===== src/Kernel/DebugSymbols/Lines.antt =====
-- The output of nm, line by line.
use mathlib.Core.List.{map}
use native.Mathlib.Nat.{pow-le-pow_right}
use bunos.Prelude.{
  ℕ, ◌%◌, ◌^◌, ◌≤◌, ◌<◌, ◌≡◌, ◌≢◌, refl, ap, ◌∙◌, false, List, [], ◌∷◌, ◌++◌, append-nil,
  append_assoc, Bool, ok, some, ◌>>=◌, arith, Bool-cases, inl, inr, ◌==◌, length,
}
use bunos.Libc.Format.Digits.{value_from}
use bunos.Libc.Numbers.Parse.{Digits, none_left, digit, digit_char, strtoll_lem}
use bunos.Kernel.Vfs.{Vfs, quick_read_all_data}
use bunos.Kernel.DebugSymbols.{
  SymbolEntry, reading_address, reading_symbol, reading_type, Parser, parse_char, parse_chars,
  no_entry, symbol_file, load_debug_symbols,
}

-- A line: the digits of the address, the first one apart, the letter of the kind and the name.
pub record Line : Type 0 where
  pub d : ℕ
  pub ds : List ℕ
  pub kind : ℕ
  pub name : List ℕ

unfoldable pub text : Line → List ℕ
text l = map digit_char (l.d ∷ l.ds) ++ 0x20 ∷ l.kind ∷ 0x20 ∷ (l.name ++ 0x0A ∷ [])

unfoldable pub texts : List Line → List ℕ
unfolding text
texts [] = []
texts (l ∷ ls) = text l ++ texts ls

pub data NoNewline : List ℕ → Type 0 where
  empty : NoNewline []
  char : {c : ℕ} {cs : List ℕ} → c ≢ 0x0A → NoNewline cs → NoNewline (c ∷ cs)

-- The address has digits to the base 16 and fits an int, and the parts are apart.
pub record IsLine (l : Line) : Type 0 where
  pub digits : Digits 16 (l.d ∷ l.ds)
  pub few : length l.ds < 8
  pub small : value_from 16 0 (l.d ∷ l.ds) < 2 ^ 31
  pub kind_black : l.kind ≢ 0x20
  pub kind_line : l.kind ≢ 0x0A
  pub name_line : NoNewline l.name

unfoldable pub symbol_of : Line → SymbolEntry
symbol_of l = record { name = l.name ++ 0 ∷ []; offset = value_from 16 0 (l.d ∷ l.ds) }

-- In each of the three states, with what is read so far.
abbrev at_address : List ℕ → SymbolEntry → List SymbolEntry → Parser
at_address address entry symbols = record {
  state = reading_address;
  current_address = address;
  current_symbol = [];
  current_entry = entry;
  symbols = symbols;
}

abbrev at_type : SymbolEntry → List SymbolEntry → Parser
at_type entry symbols = record {
  state = reading_type;
  current_address = [];
  current_symbol = [];
  current_entry = entry;
  symbols = symbols;
}

abbrev at_name : List ℕ → SymbolEntry → List SymbolEntry → Parser
at_name name entry symbols = record {
  state = reading_symbol;
  current_address = [];
  current_symbol = name;
  current_entry = entry;
  symbols = symbols;
}

digit_step :
    (d : ℕ) (address : List ℕ) (entry : SymbolEntry) (symbols : List SymbolEntry)
    → d < 16
    → parse_char (digit_char d) (at_address address entry symbols)
      ≡ ok (at_address (address ++ digit_char d ∷ []) entry symbols)
unfolding parse_char digit_char
digit_step d address entry symbols less =
    let a : (digit_char d == 0x0A) ≡ false = ground arith in
    let b : (digit_char d == 0x20) ≡ false = ground arith in rw (a, b)

name_step :
    (c : ℕ) (name : List ℕ) (entry : SymbolEntry) (symbols : List SymbolEntry)
    → c ≢ 0x0A
    → parse_char c (at_name name entry symbols) ≡ ok (at_name (name ++ c ∷ []) entry symbols)
unfolding parse_char
name_step c name entry symbols ne =
    let a : (c == 0x0A) ≡ false = ground arith in
    elim (Bool-cases (c == 0x20)) [ inl space ↦ rw (a, space) | inr none ↦ rw (a, none) ]

kind_step :
    (c : ℕ) (entry : SymbolEntry) (symbols : List SymbolEntry)
    → c ≢ 0x0A
    → c ≢ 0x20
    → parse_char c (at_type entry symbols) ≡ ok (at_type entry symbols)
unfolding parse_char
kind_step c entry symbols ne ne' =
    let a : (c == 0x0A) ≡ false = ground arith in
    let b : (c == 0x20) ≡ false = ground arith in rw (a, b)

space_step :
    (entry : SymbolEntry) (symbols : List SymbolEntry)
    → parse_char 0x20 (at_type entry symbols) ≡ ok (at_name [] entry symbols)
unfolding parse_char
space_step entry symbols = refl

newline_step :
    (name : List ℕ) (v : ℕ) (old : List ℕ) (symbols : List SymbolEntry)
    → parse_char 0x0A (at_name name (record { name = old; offset = v }) symbols)
      ≡ ok (
          at_address []
            (record { name = name ++ 0 ∷ []; offset = v })
            (symbols ++ record { name = name ++ 0 ∷ []; offset = v } ∷ []))
unfolding parse_char
newline_step name v old symbols = refl

address_step :
    (d : ℕ) (ds : List ℕ) (entry : SymbolEntry) (symbols : List SymbolEntry)
    → Digits 16 (d ∷ ds)
    → length ds < 8
    → value_from 16 0 (d ∷ ds) < 2 ^ 31
    → parse_char 0x20 (at_address (map digit_char (d ∷ ds)) entry symbols)
      ≡ ok (at_type (record { name = entry.name; offset = value_from 16 0 (d ∷ ds) }) symbols)
unfolding parse_char
address_step d ds entry symbols digits few small =
    let power : 16 ^ length ds ≤ 16 ^ 7 =
      pow-le-pow_right (omega arith) {i = length ds} {j = 7} (omega arith) in
    let u : value_from 16 0 (d ∷ ds) % 2 ^ 32 ≡ value_from 16 0 (d ∷ ds) = omega arith in
    let read =
      strtoll_lem 16 d ds [] false digits (omega arith) (omega arith) (omega arith) (omega arith)
        small in
    rw (read, u)

-- The digits of an address are kept, and the characters of a name.
address_kept :
    (ds rest address : List ℕ) (entry : SymbolEntry) (symbols : List SymbolEntry)
    → Digits 16 ds
    → parse_chars (map digit_char ds ++ rest) (at_address address entry symbols)
      ≡ parse_chars rest (at_address (address ++ map digit_char ds) entry symbols)
unfolding parse_chars
address_kept [] rest address entry symbols none_left = rw (append-nil address)
address_kept (d ∷ ds) rest address entry symbols (digit less more) =
    rw (digit_step d address entry symbols less) (
      address_kept ds rest (address ++ digit_char d ∷ []) entry symbols more
      ∙ ap (λ a. parse_chars rest (at_address a entry symbols))
          (append_assoc address (digit_char d ∷ []) (map digit_char ds)))

name_kept :
    (cs rest name : List ℕ) (entry : SymbolEntry) (symbols : List SymbolEntry)
    → NoNewline cs
    → parse_chars (cs ++ rest) (at_name name entry symbols)
      ≡ parse_chars rest (at_name (name ++ cs) entry symbols)
unfolding parse_chars
name_kept [] rest name entry symbols empty = rw (append-nil name)
name_kept (c ∷ cs) rest name entry symbols (char ne more) = rw (name_step c name entry symbols ne) (
    name_kept cs rest (name ++ c ∷ []) entry symbols more
    ∙ ap (λ n. parse_chars rest (at_name n entry symbols)) (append_assoc name (c ∷ []) cs))

-- One line adds its symbol.
line_lem :
    (l : Line) (rest : List ℕ) (entry : SymbolEntry) (symbols : List SymbolEntry)
    → IsLine l
    → parse_chars (text l ++ rest) (at_address [] entry symbols)
      ≡ parse_chars rest (at_address [] (symbol_of l) (symbols ++ symbol_of l ∷ []))
unfolding text symbol_of parse_chars
line_lem l rest entry symbols is =
    let tail : (l.name ++ 0x0A ∷ []) ++ rest ≡ l.name ++ 0x0A ∷ rest =
      append_assoc l.name (0x0A ∷ []) rest in
    let whole : (map digit_char (l.d ∷ l.ds) ++ 0x20 ∷ l.kind ∷ 0x20 ∷ (l.name ++ 0x0A ∷ []))
          ++ rest
        ≡ map digit_char (l.d ∷ l.ds) ++ 0x20 ∷ l.kind ∷ 0x20 ∷ (l.name ++ 0x0A ∷ rest) =
      append_assoc (map digit_char (l.d ∷ l.ds)) _ rest
      ∙ ap (λ t. map digit_char (l.d ∷ l.ds) ++ 0x20 ∷ l.kind ∷ 0x20 ∷ t) tail in
    let kept =
      address_kept (l.d ∷ l.ds) (0x20 ∷ l.kind ∷ 0x20 ∷ (l.name ++ 0x0A ∷ rest)) [] entry symbols
        is.digits in
    ap (λ t. parse_chars t (at_address [] entry symbols)) whole
    ∙ kept
    ∙ rw (
      address_step l.d l.ds entry symbols is.digits is.few is.small,
      kind_step l.kind _ symbols is.kind_line is.kind_black,
      space_step,
      name_kept l.name (0x0A ∷ rest) [] _ symbols is.name_line,
      newline_step l.name (value_from 16 0 (l.d ∷ l.ds)) entry.name symbols,
    )

pub data Lines : List Line → Type 0 where
  no_line : Lines []
  line : {l : Line} {ls : List Line} → IsLine l → Lines ls → Lines (l ∷ ls)

parse_texts :
    (ls : List Line) (entry : SymbolEntry) (symbols : List SymbolEntry)
    → Lines ls
    → (parse_chars (texts ls) (at_address [] entry symbols) >>= λ p. ok p.symbols)
      ≡ ok (symbols ++ map symbol_of ls)
unfolding texts parse_chars
parse_texts [] entry symbols no_line = rw (append-nil symbols)
parse_texts (l ∷ ls) entry symbols (line is more) = rw (line_lem l (texts ls) entry symbols is) (
    parse_texts ls (symbol_of l) (symbols ++ symbol_of l ∷ []) more
    ∙ ap ok (append_assoc symbols (symbol_of l ∷ []) (map symbol_of ls)))

-- Where the file of symbols holds lines as nm prints them, each with an address of at most 8 digits
-- to the base 16 and below 2 ^ 31, load_debug_symbols returns, and the symbols are those of the
-- lines in their order, with their addresses, and with their names and a 0 behind.
pub load_debug_symbols_lem :
    (has_room : ℕ → Bool) (vfs : Vfs) (ls : List Line)
    → quick_read_all_data has_room vfs symbol_file ≡ ok (some (texts ls))
    → Lines ls
    → load_debug_symbols has_room vfs [] ≡ ok (map symbol_of ls)
unfolding load_debug_symbols
load_debug_symbols_lem has_room vfs ls read each = rw read (parse_texts ls no_entry [] each)
