-- ===== src/Kernel/DebugSymbols.antt =====
-- kernel/debugsymbols.cpp: the symbols of the kernel, read from the output of nm. Vectors are
-- lists; the global s_symbols is passed on.
pub mod Lines
pub mod Lookup
mod Tests
use bunos.Prelude.{
  ℕ, ◌+◌, ◌-◌, ◌%◌, ◌^◌, Bool, true, false, Option, some, none, List, [], ◌∷◌, ◌++◌, Result, ok,
  panic, fault, ◌>>=◌, ◌>>◌, check, ltb, ◌==◌, if◌then◌else◌,
}
use bunos.Libc.Numbers.{ℤ, pos, negsuc, strtoll}
use bunos.Kernel.Vfs.{Vfs, quick_read_all_data}

pub record SymbolEntry : Type 0 where
  pub name : List ℕ
  pub offset : ℕ

pub data State : Type 0 where
  reading_address reading_symbol reading_type : State

-- The local variables of load_debug_symbols, and s_symbols.
pub record Parser : Type 0 where
  pub state : State
  pub current_address : List ℕ
  pub current_symbol : List ℕ
  pub current_entry : SymbolEntry
  pub symbols : List SymbolEntry

-- A `long long` cut down to 32 bits.
unfoldable pub to_u32 : ℤ → ℕ
to_u32 (pos n) = n % 2 ^ 32
to_u32 (negsuc n) = 2 ^ 32 - 1 - n % 2 ^ 32

unfoldable pub end_line : Parser → Result Parser
end_line p =
    let name = p.current_symbol ++ 0 ∷ [] in
    let whole : SymbolEntry = record { name = name; offset = p.current_entry.offset } in
    elim p.state [
      | reading_symbol ↦ ok (record {
        state = reading_address;
        current_address = p.current_address;
        current_symbol = [];
        current_entry = whole;
        symbols = p.symbols ++ whole ∷ [];
      })
      | reading_address ↦ panic
      | reading_type ↦ panic
    ]

unfoldable pub feed : ℕ → Parser → Parser
feed c p = elim p.state [
  | reading_address ↦ record p { current_address = p.current_address ++ c ∷ [] }
  | reading_symbol ↦ record p { current_symbol = p.current_symbol ++ c ∷ [] }
  | reading_type ↦ p
]

unfoldable pub feed_space : ℕ → Parser → Result Parser
unfolding to_u32
feed_space c p = elim p.state [
  | reading_address ↦ do
    (address, end) ← strtoll (p.current_address ++ 0 ∷ []) false 16
    ok (record {
      state = reading_type;
      current_address = [];
      current_symbol = p.current_symbol;
      current_entry = record { name = p.current_entry.name; offset = to_u32 address };
      symbols = p.symbols;
    })
  | reading_type ↦ ok (record p { state = reading_symbol })
  | reading_symbol ↦ ok (record p { current_symbol = p.current_symbol ++ c ∷ [] })
]

-- One round of the loop.
unfoldable pub parse_char : ℕ → Parser → Result Parser
unfolding end_line feed feed_space
parse_char c p =
    if c == 0x0A then end_line p else if c == 0x20 then feed_space c p else ok (feed c p)

unfoldable pub parse_chars : List ℕ → Parser → Result Parser
parse_chars [] p = ok p
parse_chars (c ∷ cs) p = do p' ← parse_char c p; parse_chars cs p'

abbrev pub no_entry : SymbolEntry
no_entry = record { name = []; offset = 0 }

abbrev pub start : List SymbolEntry → Parser
start symbols = record {
  state = reading_address;
  current_address = [];
  current_symbol = [];
  current_entry = no_entry;
  symbols = symbols;
}

-- "/boot/kernel.sym"
abbrev pub symbol_file : List ℕ
symbol_file =
    0x2F ∷ 0x62 ∷ 0x6F ∷ 0x6F ∷ 0x74 ∷ 0x2F ∷ 0x6B ∷ 0x65 ∷ 0x72 ∷ 0x6E ∷ 0x65 ∷ 0x6C ∷ 0x2E ∷ 0x73
    ∷ 0x79 ∷ 0x6D ∷ []

-- The new value of s_symbols.
unfoldable pub load_debug_symbols : (ℕ → Bool) → Vfs → List SymbolEntry → Result (List SymbolEntry)
load_debug_symbols has_room vfs symbols = do
  check (elim symbols [ [] ↦ true | _ ∷ _ ↦ false ])
  file_result ← quick_read_all_data has_room vfs symbol_file
  contents ← elim file_result [ none ↦ panic | some contents ↦ ok contents ]
  p ← parse_chars contents (start symbols)
  ok p.symbols

-- What function_name_from_pc answers: a symbol's name, or one of its two texts.
pub data Name : Type 0 where
  missing unknown : Name
  symbol : List ℕ → Name

-- The loop, with the name found so far.
unfoldable pub name_loop : ℕ → List SymbolEntry → Name → Name
name_loop pc [] name = name
name_loop pc (s ∷ symbols) name =
    let rest = name_loop pc symbols (symbol s.name) in if ltb pc s.offset then name else rest

unfoldable pub function_name_from_pc : List SymbolEntry → ℕ → Name
unfolding name_loop
function_name_from_pc [] pc = missing
function_name_from_pc (s ∷ symbols) pc = name_loop pc (s ∷ symbols) unknown
