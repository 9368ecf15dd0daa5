-- ===== src/Kernel/DebugSymbols/Lookup.antt =====
-- The symbol that a program counter is in.
use bunos.Prelude.{ℕ, ◌≤◌, ◌<◌, ◌≡◌, refl, true, false, List, [], ◌∷◌, ◌++◌, arith, ltb}
use bunos.Kernel.DebugSymbols.{SymbolEntry, Name, unknown, symbol, name_loop, function_name_from_pc}

-- Symbols that all begin at or before the counter.
pub data Before (pc : ℕ) : List SymbolEntry → Type 0 where
  none_before : Before pc []
  before :
      {s : SymbolEntry} {symbols : List SymbolEntry}
      → s.offset ≤ pc
      → Before pc symbols
      → Before pc (s ∷ symbols)

-- The first of these symbols, if there is one, begins behind the counter.
pub data Behind (pc : ℕ) : List SymbolEntry → Type 0 where
  none_behind : Behind pc []
  behind : {s : SymbolEntry} {symbols : List SymbolEntry} → pc < s.offset → Behind pc (s ∷ symbols)

name_loop_ends :
    (pc : ℕ) (symbols : List SymbolEntry) (name : Name)
    → Behind pc symbols
    → name_loop pc symbols name ≡ name
unfolding name_loop
name_loop_ends pc [] name none_behind = refl
name_loop_ends pc (s ∷ symbols) name (behind h) =
    let t : ltb pc s.offset ≡ true = ground (arith, h) in rw t

name_loop_lem :
    (pc : ℕ) (first : List SymbolEntry) (s : SymbolEntry) (rest : List SymbolEntry) (name : Name)
    → Before pc first
    → s.offset ≤ pc
    → Behind pc rest
    → name_loop pc (first ++ s ∷ rest) name ≡ symbol s.name
unfolding name_loop
name_loop_lem pc [] s rest name none_before here ends =
    let t : ltb pc s.offset ≡ false = ground (arith, here) in
    rw t (name_loop_ends pc rest (symbol s.name) ends)
name_loop_lem pc (f ∷ first) s rest name (before h more) here ends =
    let t : ltb pc f.offset ≡ false = ground (arith, h) in
    rw t (name_loop_lem pc first s rest (symbol f.name) more here ends)

-- In symbols of which some begin at or before a program counter and the next begins behind it, the
-- name that function_name_from_pc gives is the one of the last of the former.
pub function_name_from_pc_lem :
    (pc : ℕ) (first : List SymbolEntry) (s : SymbolEntry) (rest : List SymbolEntry)
    → Before pc first
    → s.offset ≤ pc
    → Behind pc rest
    → function_name_from_pc (first ++ s ∷ rest) pc ≡ symbol s.name
unfolding function_name_from_pc
function_name_from_pc_lem pc [] s rest none_before here ends =
    name_loop_lem pc [] s rest unknown none_before here ends
function_name_from_pc_lem pc (f ∷ first) s rest front here ends =
    name_loop_lem pc (f ∷ first) s rest unknown front here ends
